-- ===== src/Backend/Run/Sites.antt =====
-- The site that internal/backend/run.go reads back from a job id.
use prober.Prelude.{
  ℕ, ◌≡◌, ◌≢◌, refl, false, [], ◌∷◌, ◌++◌, Option, none, some, arith, ◌==◌, All, if◌then◌else◌,
}
use prober.Prelude.Maps.{Text}
use prober.Backend.Run.{colon, site_from, site_of, job_id_of}

abbrev pub HasNoColon : Text → Type 0
HasNoColon = All (λ (c : ℕ). c ≢ colon)

site_from-none : (t : Text) (found : Option Text) → HasNoColon t → site_from t found ≡ found
site_from-none [] found h = refl
site_from-none (c ∷ cs) found h =
    let q : (c == colon) ≡ false = ground (arith, h.0) in rw q (site_from-none cs found h.1)

site_from-append :
    (s t : Text) (found : Option Text) → site_from (s ++ colon ∷ t) found ≡ site_from t (some t)
site_from-append [] t found = refl
site_from-append (c ∷ cs) t found =
    site_from-append cs t (if c == colon then some (cs ++ colon ∷ t) else found)

-- A job id leads back to its site, if the site has no colon in its name.
pub site_of-job_id_of : (run site : Text) → HasNoColon site → site_of (job_id_of run site) ≡ site
unfolding site_of
site_of-job_id_of run site h =
    rw (site_from-append run site none) (rw (site_from-none site (some site) h))
