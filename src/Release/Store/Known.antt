-- ===== src/Release/Store/Known.antt =====
-- The catalogue of a store: what it is after a look-up, a request and a `remember`.
use internal.Prelude.{
  ℕ, ◌≡◌, refl, sym, ap, ◌∙◌, subst, Option, none, some, Text, get, set, Result, ok, damaged_record,
  foreign_record,
}
use internal.Release.Effects.{Run, pure, bind-ok, lift-ok, fail-ne-ok}
use internal.Release.Record.{IntentCodec, release_tag}
use internal.Release.Catalog.{
  SavedRelease, CatalogEntry, saved, foreign_entry, broken, ReleaseCatalog,
}
use internal.Release.Store.{
  StoreCall, GitHubPort, StoreWorld, ask, list_releases, keep_catalog, catalog_or_list,
  release_catalog, remember, find, find_entry, assert_tag_matches_commit,
}

catalog_injective : (a b : ReleaseCatalog) → ◌≡◌ {A = Result ReleaseCatalog} (ok a) (ok b) → a ≡ b
catalog_injective a b e = cc

module _ {World : Type 0} (codec : IntentCodec) (package_name : Text) (port : GitHubPort World)
    (pages : ℕ) where
  catalog_or_list-known :
      (o : Option ReleaseCatalog) (s t : Run StoreCall (StoreWorld World)) (c : ReleaseCatalog)
      → s.world.catalog ≡ o
      → catalog_or_list codec package_name port pages o s ≡ (ok c, t)
      → t.world.catalog ≡ some c
  unfolding catalog_or_list keep_catalog
  catalog_or_list-known (some c') s t c held h =
      let (same, end) = lift-ok (ok c') s h in
      ap (λ (r : Run StoreCall (StoreWorld World)). r.world.catalog) (sym end)
      ∙ held
      ∙ ap some (catalog_injective c' c same)
  catalog_or_list-known none s t c held h =
      let (c', u, listed, kept) =
        bind-ok (list_releases codec package_name port pages)
          (keep_catalog codec package_name port pages) s h in
      let (same, end) =
        lift-ok (ok c') (record u { world = record u.world { catalog = some c' } }) kept in
      ap (λ (r : Run StoreCall (StoreWorld World)). r.world.catalog) (sym end)
      ∙ ap some (catalog_injective c' c same)

  entry_absent :
      (tag : Text) (o : Option CatalogEntry) (s t : Run StoreCall (StoreWorld World))
      → find_entry codec package_name port pages tag o s ≡ (ok none, t)
      → (o ≡ none) × (s ≡ t)
  unfolding find_entry
  entry_absent tag none s t h = (refl, (lift-ok (ok none) s h).1)
  entry_absent tag (some (broken reason)) s t h =
      absurd (fail-ne-ok (damaged_record tag reason) s h)
  entry_absent tag (some foreign_entry) s t h = absurd (fail-ne-ok (foreign_record tag) s h)
  entry_absent tag (some (saved release)) s t h =
      let (x, u, matched, last) =
        bind-ok (assert_tag_matches_commit codec package_name port pages tag release) _ s h in
      absurd (cc ((lift-ok (ok (some release)) u last).0))

  -- A look-up that finds nothing leaves the catalogue known, and it has no entry for the tag.
  pub find-absent :
      (tag : Text) (s t : Run StoreCall (StoreWorld World))
      → find codec package_name port pages tag s ≡ (ok none, t)
      → (c : ReleaseCatalog) × (t.world.catalog ≡ some c) × (get tag c ≡ none)
  unfolding find release_catalog
  find-absent tag s t h =
      let (c, u, listed, later) = bind-ok (release_catalog codec package_name port pages) _ s h in
      let (absent, end) = entry_absent tag (get tag c) u t later in
      (
        c,
        ap (λ (r : Run StoreCall (StoreWorld World)). r.world.catalog) (sym end)
            ∙ catalog_or_list-known s.world.catalog s u c refl listed,
        absent,
      )

  -- A request leaves the catalogue as it is.
  pub ask-catalog :
      {A : Type 0} (note : Result A → StoreCall) (request : World → Result A × World)
      (s t : Run StoreCall (StoreWorld World)) (a : A)
      → ask codec package_name port pages note request s ≡ (ok a, t)
      → t.world.catalog ≡ s.world.catalog
  ask-catalog {A} note request s t a h =
      sym (ap (λ (p : Result A × Run StoreCall (StoreWorld World)). p.1.world.catalog) h)

  -- With a known catalogue, a record is remembered without a request.
  pub remember-known :
      (release : SavedRelease) (s t : Run StoreCall (StoreWorld World)) (c : ReleaseCatalog)
      → s.world.catalog ≡ some c
      → remember codec package_name port pages release s ≡ (ok tt, t)
      → (t.trace ≡ s.trace)
        × (t.world.catalog ≡ some (set (release_tag release.intent) (saved release) c))
  unfolding remember release_catalog catalog_or_list keep_catalog
  remember-known release s t c held h =
      let (c', u, listed, later) = bind-ok (release_catalog codec package_name port pages) _ s h in
      let (same, start) =
        lift-ok (ok c) s (
          subst (λ o. catalog_or_list codec package_name port pages o s ≡ (ok c', u)) held
            listed) in
      let added = set (release_tag release.intent) (saved release) c' in
      let (k, v, kept, last) =
        bind-ok (keep_catalog codec package_name port pages added) (λ _. pure tt) u later in
      let (_, stored) =
        lift-ok (ok added) (record u { world = record u.world { catalog = some added } }) kept in
      let (_, end) = lift-ok (ok tt) v last in
      let whole = stored ∙ end in
      (
        ap (λ (r : Run StoreCall (StoreWorld World)). r.trace) (sym whole)
            ∙ ap (λ (r : Run StoreCall (StoreWorld World)). r.trace) (sym start),
        ap (λ (r : Run StoreCall (StoreWorld World)). r.world.catalog) (sym whole)
            ∙ ap (λ x. some (set (release_tag release.intent) (saved release) x))
                (sym (catalog_injective c c' same)),
      )
