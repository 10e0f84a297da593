-- ===== src/Release/Store/Requests.antt =====
-- What a request to GitHub adds to the trace, and results that are equal.
use internal.Prelude.{ℕ, ◌≡◌, ◌∷◌, Text, Result, ok}
use internal.Release.Effects.{Run, call-ok}
use internal.Release.Record.{IntentCodec}
use internal.Release.Catalog.{SavedRelease}
use internal.Release.Store.{StoreCall, GitHubPort, StoreWorld, ask}

pub released : (a b : SavedRelease) → ◌≡◌ {A = Result SavedRelease} (ok a) (ok b) → a ≡ b
released a b e = cc

module _ {World : Type 0} (codec : IntentCodec) (package_name : Text) (port : GitHubPort World)
    (pages : ℕ) where
  -- What a request that returned has added to the trace.
  pub asked :
      {A : Type 0} (note : Result A → StoreCall) (request : World → Result A × World)
      (s t : Run StoreCall (StoreWorld World)) (a : A)
      → ask codec package_name port pages note request s ≡ (ok a, t)
      → t.trace ≡ note (ok a) ∷ s.trace
  asked note request s t a h =
      call-ok note (λ w. let (r, o) = request w.outside in (r, record w { outside = o })) s h
