-- ===== src/Deployment/Invariant/Reporting.antt =====
-- Reports keep the invariant.
use cloudrail.Common.{
  ==_iff, All, All-map, List, Option, ap, arith, false, if◌then◌else◌, inl, inr, none, refl, some,
  subst, sym, true, ℕ, ◌++◌, ◌==◌, ◌∙◌, ◌≡◌,
}
use cloudrail.Common.Table.{find, find_sound, update}
use cloudrail.Common.Table.Rows.{All-of, All-update-to, All-zip, only_row}
use cloudrail.Common.Text.{Text}
use cloudrail.Deployment.Invariant.{Inv, IsServed, active_of, service_by_id}
use cloudrail.Deployment.Invariant.Rows.{Ages, IsServed-update, rows, update-InvRows}
use cloudrail.Deployment.Invariant.Superseding.{
  IsLeft, active_of-activated, reported-Ages, supersede-InvRows, supersede-IsLeft,
}
use cloudrail.Deployment.Model.{
  Db, Deployment, Event, Report, Service, Status, active, checking, is_active, predeploy, pulling,
  routing, starting, superseded, terminal,
}
use cloudrail.Deployment.Outside.{Outside}
use cloudrail.Deployment.Report.{
  activate, activated, active_with, advance, by_id, event_of, report, reported, settle, supersede,
  to_superseded, with_logs,
}
use cloudrail.Deployment.Report.Laws.{report_cases}
use cloudrail.Result.{>>=-eq-ok, no_rows, ok, ok-injective, or_else, or_else-eq-ok}

terminal-active : terminal active ≡ true
unfolding terminal
terminal-active = refl

-- A deployment that is not finished is activated: the one before it is superseded, and the service
-- names the new one.
module _ (now : ℕ) (message logs : Text) (d : Deployment) (s : Service) (db : Db) (v : Inv db)
    (found : find (by_id d.id) db.deployments ≡ some d)
    (named : find (service_by_id d.service_id) db.services ≡ some s) where
  abbrev services' : List Service
  services' = update (service_by_id d.service_id) (activated d.id) db.services

  abbrev IsKnown : Deployment → Type 0
  IsKnown e =
      IsLeft db.services d.service_id e × (by_id d.id e ≡ true → e.service_id ≡ d.service_id)

  known_rows :
      All
        (λ e. by_id d.id e ≡ true → e.service_id ≡ d.service_id)
        (supersede now s.active_id db.deployments)
  unfolding supersede
  known_rows = go s.active_id
    where
      rows_of : All (λ e. by_id d.id e ≡ true → e.service_id ≡ d.service_id) db.deployments
      rows_of =
          All-map (λ e. by_id d.id e ≡ true → e ≡ d)
            (λ e. by_id d.id e ≡ true → e.service_id ≡ d.service_id)
            (λ e k t. ap (λ x. x.service_id) (k t)) db.deployments
            (only_row (by_id d.id) db.deployments d (v.unique d.id) found)

      go :
          (o : Option ℕ)
          → All
              (λ e. by_id d.id e ≡ true → e.service_id ≡ d.service_id)
              (supersede now o db.deployments)
      go none = rows_of
      go (some old) =
          All-update-to (λ e. by_id d.id e ≡ true → e.service_id ≡ d.service_id)
            (λ e. by_id d.id e ≡ true → e.service_id ≡ d.service_id) (active_with old)
            (to_superseded now) db.deployments (λ e k _. k) (λ e k _. k) rows_of

  named_active : active_of db.services d.service_id ≡ s.active_id
  unfolding active_of
  named_active = rw named

  activated-IsServed : All (IsServed services') (
      update
        (by_id d.id)
        (reported now active message logs)
        (supersede now s.active_id db.deployments))
  activated-IsServed =
      All-update-to IsKnown (IsServed services') (by_id d.id) (reported now active message logs)
        (supersede now s.active_id db.deployments)
        (λ e k t a. hit e (k.1 t) ((==_iff e.id d.id).0 t))
        (λ e k t a. missed e (k.0.0 a) (k.0.1 a))
        (All-zip (IsLeft db.services d.service_id)
          (λ e. by_id d.id e ≡ true → e.service_id ≡ d.service_id)
          (supersede now s.active_id db.deployments)
          (supersede-IsLeft now db.services d.service_id s.active_id db.deployments named_active
            v.served)
          known_rows)
    where
      new :
          (id : ℕ)
          → active_of services' id
            ≡ (if d.service_id == id then some d.id else active_of db.services id)
      new id = active_of-activated db.services d.service_id d.id id s named

      hit :
          (e : Deployment)
          → e.service_id ≡ d.service_id
          → e.id ≡ d.id
          → active_of services' e.service_id ≡ some e.id
      hit e same id =
          new e.service_id ∙ (rw ((==_iff d.service_id e.service_id).1 (sym same)) (rw id refl))

      flip : (i j : ℕ) → (i == j) ≡ false → (j == i) ≡ false
      flip i j h = ground arith

      missed :
          (e : Deployment)
          → active_of db.services e.service_id ≡ some e.id
          → (e.service_id == d.service_id) ≡ false
          → active_of services' e.service_id ≡ some e.id
      missed e a n = new e.service_id ∙ (rw (flip e.service_id d.service_id n) a)

  activated-Inv :
      (events : List Event)
      → Inv (record db {
        services = services';
        deployments =
            update
              (by_id d.id)
              (reported now active message logs)
              (supersede now s.active_id db.deployments);
        events = events;
      })
  activated-Inv events =
      let w =
        update-InvRows (by_id d.id) (reported now active message logs)
          (supersede now s.active_id db.deployments)
          (All-of (λ e. by_id d.id e ≡ true → Ages e (reported now active message logs e))
            (λ e _. active-Ages e) (supersede now s.active_id db.deployments))
          (supersede-InvRows now s.active_id db.deployments (rows v)) in
      record {
        served = activated-IsServed;
        unique = w.unique;
        leased = w.leased;
        bounded = w.bounded;
      }
    where
      active-Ages : (e : Deployment) → Ages e (reported now active message logs e)
      active-Ages e = record {
        same_id = refl;
        same_service = refl;
        unfinished = λ t. absurd (cc (t, terminal-active));
        lease = λ l. l;
      }

-- A report of another status than active, on a deployment that is not finished.
module _ (now : ℕ) (status : Status) (message logs : Text) (d : Deployment) (db : Db) (v : Inv db)
    (found : find (by_id d.id) db.deployments ≡ some d) (unfinished : terminal d.status ≡ false)
    (passive : is_active status ≡ false) where
  advanced-Inv :
      (events : List Event)
      → Inv (record db {
        deployments = update (by_id d.id) (reported now status message logs) db.deployments;
        events = events;
      })
  advanced-Inv events =
      let w =
        update-InvRows (by_id d.id) (reported now status message logs) db.deployments
          (All-map (λ e. by_id d.id e ≡ true → e ≡ d)
            (λ e. by_id d.id e ≡ true → Ages e (reported now status message logs e))
            (λ e k t.
              reported-Ages now status message logs e
                (ap (λ x. terminal x.status) (k t) ∙ unfinished))
            db.deployments (only_row (by_id d.id) db.deployments d (v.unique d.id) found))
          (rows v) in
      record {
        served =
            IsServed-update db.services (by_id d.id) (reported now status message logs)
              db.deployments (λ e. refl) (λ e. refl) (λ e _ a. absurd (cc (a, passive))) v.served;
        unique = w.unique;
        leased = w.leased;
        bounded = w.bounded;
      }

settle-Inv :
    (now : ℕ) (status : Status) (message logs : Text) (d : Deployment) (db : Db)
    → is_active status ≡ false
    → Inv db
    → find (by_id d.id) db.deployments ≡ some d
    → terminal d.status ≡ false
    → Inv (settle now d status message logs db)
unfolding settle
settle-Inv now status message logs d db p v f u =
    advanced-Inv now status message logs d db v f u p (db.events ++ event_of d status message)

activate_lem :
    (now : ℕ) (d : Deployment) (db : Db) {q : Db}
    → activate now d db ≡ ok q
    → (s : Service) × (find (service_by_id d.service_id) db.services ≡ some s)
      × (record db {
        services = update (service_by_id d.service_id) (activated d.id) db.services;
        deployments = supersede now s.active_id db.deployments;
      }
          ≡ q)
unfolding activate
activate_lem now d db h =
    let (s, named, e) =
      >>=-eq-ok (or_else (find (service_by_id d.service_id) db.services) no_rows)
        (λ s. ok (record db {
          services = update (service_by_id d.service_id) (activated d.id) db.services;
          deployments = supersede now s.active_id db.deployments;
        }))
        h in
    (s, or_else-eq-ok _ _ named, ok-injective e)

-- Advancing an unfinished deployment to any status keeps the invariant.
advance-Inv :
    (now : ℕ) (status : Status) (message logs : Text) (d : Deployment) (db : Db) {db' : Db}
    → Inv db
    → find (by_id d.id) db.deployments ≡ some d
    → terminal d.status ≡ false
    → advance now d status message logs db ≡ ok db'
    → Inv db'
unfolding advance
advance-Inv now active message logs d db v f u h =
    let (q, aq, e) =
      >>=-eq-ok (activate now d db) (λ q. ok (settle now d active message logs q)) h in
    let (s, named, written) = activate_lem now d db aq in
    subst Inv (ok-injective e) (
      subst (λ x. Inv (settle now d active message logs x)) written
        (unfold settle in
          activated-Inv now message logs d s db v f named (db.events ++ event_of d active message)))
advance-Inv now Status.queued message logs d db v f u h =
    subst Inv (ok-injective h) (settle-Inv now Status.queued message logs d db refl v f u)
advance-Inv now pulling message logs d db v f u h =
    subst Inv (ok-injective h) (settle-Inv now pulling message logs d db refl v f u)
advance-Inv now predeploy message logs d db v f u h =
    subst Inv (ok-injective h) (settle-Inv now predeploy message logs d db refl v f u)
advance-Inv now starting message logs d db v f u h =
    subst Inv (ok-injective h) (settle-Inv now starting message logs d db refl v f u)
advance-Inv now checking message logs d db v f u h =
    subst Inv (ok-injective h) (settle-Inv now checking message logs d db refl v f u)
advance-Inv now routing message logs d db v f u h =
    subst Inv (ok-injective h) (settle-Inv now routing message logs d db refl v f u)
advance-Inv now Status.failed message logs d db v f u h =
    subst Inv (ok-injective h) (settle-Inv now Status.failed message logs d db refl v f u)
advance-Inv now superseded message logs d db v f u h =
    subst Inv (ok-injective h) (settle-Inv now superseded message logs d db refl v f u)

logs-Inv :
    (id : ℕ) (text : Text) (db : Db)
    → Inv db
    → Inv (record db { deployments = update (by_id id) (with_logs text) db.deployments })
logs-Inv id text db v =
    let w =
      update-InvRows (by_id id) (with_logs text) db.deployments
        (All-of (λ d. by_id id d ≡ true → Ages d (with_logs text d)) (λ d _. kept d) db.deployments)
        (rows v) in
    record {
      served =
          IsServed-update db.services (by_id id) (with_logs text) db.deployments (λ d. refl)
            (λ d. refl) (λ d _ a. a) v.served;
      unique = w.unique;
      leased = w.leased;
      bounded = w.bounded;
    }
  where
    kept : (d : Deployment) → Ages d (with_logs text d)
    kept d = record { same_id = refl; same_service = refl; unfinished = λ t. t; lease = λ l. l }

-- A report that succeeds keeps the invariant of the store.
pub report-Inv :
    (o : Outside) (now id : ℕ) (r : Report) (db : Db) {db' : Db}
    → report o now id r db ≡ ok db'
    → Inv db
    → Inv db'
report-Inv o now id r db h v = elim (report_cases o now id r db h) [
  | inl (inl l) ↦ subst Inv (sym l.written) (logs-Inv id l.logs db v)
  | inl (inr e) ↦ subst Inv (sym e) v
  | inr a ↦
      let same = (==_iff a.row.id id).0 (find_sound (by_id id) db.deployments a.found) in
      advance-Inv now a.status a.message a.logs a.row db v
        (subst (λ i. find (by_id i) db.deployments ≡ some a.row) (sym same) a.found) a.unfinished
        a.written
]
