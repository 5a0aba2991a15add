-- ===== src/Backend/Registry/Assignments.antt =====
-- What a site is assigned by internal/backend/monitor.go.
use prober.Prelude.{
  ◌+◌, ◌≡◌, ◌≢◌, ◌⊎◌, inl, inr, subst, Bool-cases, ◌||◌, true, refl, sym, ap, ◌∙◌, Bool, false,
  List, [], ◌∷◌, map, some, All, if◌then◌else◌,
}
use prober.Prelude.Maps.{
  Text, Map, lookup, insert, text_eq, ◌=?◌, lookup-insert, lookup-insert_self,
}
use prober.Backend.Config.{MonitorConfig}
use prober.Backend.Config.Checks.{IsDistinct, =?-false}
use prober.Backend.Registry.{
  Monitor, MonitorRegistry, monitor_to_proto, monitor_at, fill, set_monitors, replace, site_matches,
  has_site, Assignment, assigned, assignment_for,
}

abbrev id_of : MonitorConfig → Text
id_of m = m.id

lookup-fill_other :
    (k : Text) (ms : List MonitorConfig) (acc : Map Text MonitorConfig)
    → All (λ m. k ≢ id_of m) ms
    → lookup k (fill ms acc) ≡ lookup k acc
lookup-fill_other k [] acc h = refl
lookup-fill_other k (m ∷ ms) acc h =
    lookup-fill_other k ms (insert m.id m acc) h.1
    ∙ (lookup-insert m.id k m acc ∙ ap (λ (b : Bool). if b then some m else lookup k acc) differs)
  where
    differs : (m.id =? k) ≡ false
    differs = (=?-false m.id k).1 (λ e. h.0 (sym e))

monitors-fill :
    (ms : List MonitorConfig) (acc : Map Text MonitorConfig)
    → IsDistinct id_of ms
    → map (λ (m : MonitorConfig). monitor_at m.id (fill ms acc)) ms ≡ ms
monitors-fill [] acc h = refl
monitors-fill (m ∷ ms) acc h =
    let found : lookup m.id (fill ms (insert m.id m acc)) ≡ some m =
      lookup-fill_other m.id ms (insert m.id m acc) h.0 ∙ lookup-insert_self m.id m acc in
    rw (found, monitors-fill ms (insert m.id m acc) h.1) refl

-- The monitors that a site takes part in, in the order of the configuration.
abbrev monitors_of : Text → List MonitorConfig → List Monitor
monitors_of site [] = []
monitors_of site (m ∷ ms) =
    let rest = monitors_of site ms in
    if site_matches m.sites site then monitor_to_proto m ∷ rest else rest

assigned-monitors_of :
    (site : Text) (by_id : Map Text MonitorConfig) (ms : List MonitorConfig)
    → assigned site by_id (map id_of ms)
      ≡ monitors_of site (map (λ (m : MonitorConfig). monitor_at m.id by_id) ms)
assigned-monitors_of site by_id [] = refl
assigned-monitors_of site by_id (m ∷ ms) = rw (assigned-monitors_of site by_id ms) refl

assignment_for-monitors_of :
    (site : Text) (ms : List MonitorConfig) (r : MonitorRegistry)
    → IsDistinct (λ (m : MonitorConfig). m.id) ms
    → assignment_for site (replace ms r)
      ≡ record { version = r.version + 1; monitors = monitors_of site ms }
unfolding assignment_for replace set_monitors
assignment_for-monitors_of site ms r h =
    ap (λ (xs : List Monitor). record { version = r.version + 1; monitors = xs })
      (assigned-monitors_of site (fill ms []) ms ∙ ap (monitors_of site) (monitors-fill ms [] h))

-- The site is one of these.
abbrev pub IsNamed : Text → List Text → Type 0
IsNamed site [] = ⊥
IsNamed site (s ∷ sites) = (s ≡ site) ⊎ IsNamed site sites

-- A monitor is for the sites that it names, or for all if it names none.
abbrev pub IsFor : Text → MonitorConfig → Type 0
IsFor site m = (m.sites ≡ []) ⊎ IsNamed site m.sites

-- The monitors of a configuration that are for a site, in its order.
pub data Selected (site : Text) : List MonitorConfig → List Monitor → Type 0 where
  selected_none : Selected site [] []
  selected :
      (m : MonitorConfig) (ms : List MonitorConfig) (out : List Monitor)
      → IsFor site m
      → Selected site ms out
      → Selected site (m ∷ ms) (monitor_to_proto m ∷ out)
  passed_over :
      (m : MonitorConfig) (ms : List MonitorConfig) (out : List Monitor)
      → ¬ IsFor site m
      → Selected site ms out
      → Selected site (m ∷ ms) out

has_site-IsNamed :
    (site : Text) (sites : List Text) → has_site site sites ≡ true → IsNamed site sites
has_site-IsNamed site [] h = cc
has_site-IsNamed site (s ∷ sites) h = elim (Bool-cases (s =? site)) [
  | inl t ↦ inl ((text_eq.beq_iff s site).0 t)
  | inr f ↦
      inr (has_site-IsNamed site sites (sym (ap (λ (b : Bool). b || has_site site sites) f) ∙ h))
]

IsNamed-has_site :
    (site : Text) (sites : List Text) → IsNamed site sites → has_site site sites ≡ true
IsNamed-has_site site [] h = absurd h
IsNamed-has_site site (s ∷ sites) (inl e) =
    ap (λ (b : Bool). b || has_site site sites) ((text_eq.beq_iff s site).1 e)
IsNamed-has_site site (s ∷ sites) (inr h) = later (s =? site) (IsNamed-has_site site sites h)
  where
    later : (b : Bool) → has_site site sites ≡ true → (b || has_site site sites) ≡ true
    later true k = refl
    later false k = k

site_matches-IsFor :
    (site : Text) (m : MonitorConfig) → site_matches m.sites site ≡ true → IsFor site m
unfolding site_matches
site_matches-IsFor site m = by_sites m.sites
  where
    by_sites :
        (sites : List Text) → site_matches sites site ≡ true → (sites ≡ []) ⊎ IsNamed site sites
    by_sites [] h = inl refl
    by_sites (s ∷ sites) h = inr (has_site-IsNamed site (s ∷ sites) h)

IsFor-site_matches :
    (site : Text) (m : MonitorConfig) → IsFor site m → site_matches m.sites site ≡ true
unfolding site_matches
IsFor-site_matches site m = by_sites m.sites
  where
    by_sites :
        (sites : List Text) → (sites ≡ []) ⊎ IsNamed site sites → site_matches sites site ≡ true
    by_sites [] h = refl
    by_sites (s ∷ sites) (inl e) = cc
    by_sites (s ∷ sites) (inr h) = IsNamed-has_site site (s ∷ sites) h

monitors_of-Selected :
    (site : Text) (ms : List MonitorConfig) → Selected site ms (monitors_of site ms)
monitors_of-Selected site [] = selected_none
monitors_of-Selected site (m ∷ ms) =
    by_match (site_matches m.sites site) refl (monitors_of-Selected site ms)
  where
    by_match :
        (b : Bool)
        → site_matches m.sites site ≡ b
        → Selected site ms (monitors_of site ms)
        → Selected site
            (m ∷ ms)
            (if b then monitor_to_proto m ∷ monitors_of site ms else monitors_of site ms)
    by_match true e rest = selected m ms _ (site_matches-IsFor site m e) rest
    by_match false e rest =
        passed_over m ms _
          (λ k. let bad : true ≡ false = sym (IsFor-site_matches site m k) ∙ e in cc) rest

-- After a reload with monitors of distinct ids, the assignment of every site has the next version and
-- exactly the monitors that name the site or name none, in the order of the configuration.
pub assignment_for-replace :
    (site : Text) (ms : List MonitorConfig) (r : MonitorRegistry)
    → IsDistinct (λ (m : MonitorConfig). m.id) ms
    → ((assignment_for site (replace ms r)).version ≡ r.version + 1)
      × Selected site ms (assignment_for site (replace ms r)).monitors
assignment_for-replace site ms r h =
    let e = assignment_for-monitors_of site ms r h in
    (
      ap (λ (a : Assignment). a.version) e,
      subst (λ (a : Assignment). Selected site ms a.monitors) (sym e)
          (monitors_of-Selected site ms),
    )
