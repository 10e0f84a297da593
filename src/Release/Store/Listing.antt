-- ===== src/Release/Store/Listing.antt =====
-- `listReleases`: the pages that it reads, and how a listing ends.
use internal.Prelude.{
  ℕ, zero, suc, ◌+◌, ◌≤◌, ◌<◌, ◌≡◌, refl, sym, ap, ◌∙◌, subst, Bool, true, false, List, [], ◌∷◌,
  ◌++◌, ltb, length, if◌then◌else◌, Text, Failure, Result, ok, err, pages_left, arith,
}
use internal.Release.Effects.{Run, Eff, pure, continue}
use internal.Release.Record.{IntentCodec}
use internal.Release.Catalog.{GitHubRelease, ReleaseCatalog, list_page}
use internal.Release.Catalog.Entries.{list_page-append}
use internal.Release.Store.{StoreCall, get_page, GitHubPort, StoreWorld, ask, list_from}

-- The requests for pages that were answered, the last one first, after the calls `before`.
abbrev pub page_calls : ℕ → List (List GitHubRelease) → List StoreCall → List StoreCall
page_calls first [] before = before
page_calls first (p ∷ ps) before = page_calls (first + 1) ps (get_page first (ok p) ∷ before)

-- The releases of pages, in their order, and then those of a last page.
abbrev pub releases_on : List (List GitHubRelease) → List GitHubRelease → List GitHubRelease
releases_on [] last = last
releases_on (p ∷ ps) last = p ++ releases_on ps last

-- A page that GitHub fills: there may be another.
abbrev pub AllFull : List (List GitHubRelease) → Type 0
AllFull [] = Unit {0}
AllFull (p ∷ ps) = (100 ≤ length p) × AllFull ps

module _ (codec : IntentCodec) (fuel first : ℕ) (listed : ReleaseCatalog)
    (full : List (List GitHubRelease)) (before : List StoreCall) where
  -- How a listing ends after full pages: with a short page, with a request that fails, or without
  -- fuel for another page.
  pub data Ends : Result ReleaseCatalog → List StoreCall → Type 0 where
    short :
        (last : List GitHubRelease)
        → length last < 100
        → length full < fuel
        → Ends
            (ok (list_page codec listed (releases_on full last)))
            (get_page (first + length full) (ok last) ∷ page_calls first full before)
    failed :
        (e : Failure)
        → length full < fuel
        → Ends (err e) (get_page (first + length full) (err e) ∷ page_calls first full before)
    exhausted : length full ≡ fuel → Ends (err pages_left) (page_calls first full before)

module _ (codec : IntentCodec) where
  -- A full page before the rest of a listing.
  Ends-page :
      (fuel first : ℕ) (listed : ReleaseCatalog) (p : List GitHubRelease)
      (full : List (List GitHubRelease)) (before : List StoreCall) (r : Result ReleaseCatalog)
      (after : List StoreCall)
      → Ends codec fuel
          (first + 1)
          (list_page codec listed p)
          full
          (get_page first (ok p) ∷ before)
          r
          after
      → Ends codec (suc fuel) first listed (p ∷ full) before r after
  Ends-page fuel first listed p full before _ _ (short last few enough) =
      let place : first + suc (length full) ≡ first + 1 + length full = omega arith in
      subst
        (λ c. Ends codec (suc fuel) first listed (p ∷ full) before (ok c) (
          get_page (first + 1 + length full) (ok last)
          ∷ page_calls (first + 1) full (get_page first (ok p) ∷ before)))
        (list_page-append codec listed p (releases_on full last))
        (subst
          (λ k.
            Ends codec (suc fuel) first listed (p ∷ full) before
              (ok (list_page codec listed (p ++ releases_on full last)))
              (get_page k (ok last) ∷ page_calls (first + 1) full (get_page first (ok p) ∷ before)))
          place (short last few (omega arith)))
  Ends-page fuel first listed p full before _ _ (failed e enough) =
      let place : first + suc (length full) ≡ first + 1 + length full = omega arith in
      subst
        (λ k.
          Ends codec (suc fuel) first listed (p ∷ full) before (err e)
            (get_page k (err e) ∷ page_calls (first + 1) full (get_page first (ok p) ∷ before)))
        place (failed e (omega arith))
  Ends-page fuel first listed p full before _ _ (exhausted all) = exhausted (omega arith)

module _ {World : Type 0} (codec : IntentCodec) (package_name : Text) (port : GitHubPort World)
    (pages : ℕ) where
  abbrev Listed :
      ℕ
      → ℕ
      → ReleaseCatalog
      → Run StoreCall (StoreWorld World)
      → Result ReleaseCatalog × Run StoreCall (StoreWorld World)
      → Type 0
  Listed fuel first listed s out =
      (full : List (List GitHubRelease)) × AllFull full
      × Ends codec fuel first listed full s.trace out.0 out.1.trace

  -- What follows a page that was read.
  abbrev after_page :
      ℕ
      → ℕ
      → ReleaseCatalog
      → List GitHubRelease
      → Bool
      → Eff StoreCall (StoreWorld World) ReleaseCatalog
  after_page fuel first listed p b =
      if b
      then pure (list_page codec listed p)
      else list_from codec package_name port pages fuel (first + 1) (list_page codec listed p)

  module _ (fuel first : ℕ) (listed : ReleaseCatalog) (s t : Run StoreCall (StoreWorld World))
      (later : (p : List GitHubRelease)
        → Listed fuel (first + 1) (list_page codec listed p) t (
            list_from codec package_name port pages fuel
              (first + 1)
              (list_page codec listed p)
              t)) where
    here :
        (r : Result (List GitHubRelease))
        → t.trace ≡ get_page first r ∷ s.trace
        → get_page (first + 0) r ∷ s.trace ≡ t.trace
    here r added =
        let place : first + 0 ≡ first = omega arith in
        ap (λ k. get_page k r ∷ s.trace) place ∙ sym added

    page_read :
        (p : List GitHubRelease) (b : Bool)
        → ltb (length p) 100 ≡ b
        → t.trace ≡ get_page first (ok p) ∷ s.trace
        → Listed (suc fuel) first listed s (after_page fuel first listed p b t)
    page_read p true e added = (
      [],
      tt,
      subst (Ends codec (suc fuel) first listed [] s.trace (ok (list_page codec listed p)))
          (here (ok p) added) (short p (ground arith) (omega arith)),
    )
    page_read p false e added =
        let (full, filled, ends) = later p in
        (
          p ∷ full,
          (ground arith, filled),
          Ends-page codec fuel first listed p full s.trace _ _ (
              subst
                (λ cs.
                  Ends codec fuel (first + 1) (list_page codec listed p) full cs
                    (after_page fuel first listed p false t).0
                    (after_page fuel first listed p false t).1.trace)
                added ends),
        )

    answered :
        (r : Result (List GitHubRelease))
        → t.trace ≡ get_page first r ∷ s.trace
        → Listed
            (suc fuel)
            first
            listed
            s
            (continue r (λ p. after_page fuel first listed p (ltb (length p) 100)) t)
    answered (ok p) added = page_read p (ltb (length p) 100) refl added
    answered (err e) added = (
      [],
      tt,
      subst (Ends codec (suc fuel) first listed [] s.trace (err e)) (here (err e) added)
          (failed e (omega arith)),
    )

  -- A listing from the page `first` on reads the pages in their order, each once and without gaps.
  -- Every page but the last one that is read is full. The listing ends in one of three ways: at the
  -- first page with less than 100 releases, with the catalogue of the releases of all pages that
  -- were read, in their order; at the first request that fails, with its failure; or, only after as
  -- many full pages as there is fuel, for want of fuel. It makes no other request.
  pub list_from-Ends :
      (fuel first : ℕ) (listed : ReleaseCatalog) (s : Run StoreCall (StoreWorld World))
      → (full : List (List GitHubRelease)) × AllFull full
        × Ends codec fuel first listed full s.trace
            (list_from codec package_name port pages fuel first listed s).0
            (list_from codec package_name port pages fuel first listed s).1.trace
  unfolding list_from
  list_from-Ends zero first listed s = ([], tt, exhausted refl)
  list_from-Ends (suc fuel) first listed s =
      let asking = ask codec package_name port pages (get_page first) (port.get_page first) s in
      answered fuel first listed s asking.1
        (λ p. list_from-Ends fuel (first + 1) (list_page codec listed p) asking.1) asking.0 refl
