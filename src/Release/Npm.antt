-- ===== src/Release/Npm.antt =====
-- packages/release/src/npm.ts: what the npm registry tells of a package.
use internal.Prelude.{
  ℕ, ◌&&◌, Bool, Option, none, some, List, [], ◌∷◌, ltb, leb, ◌==◌, not, if◌then◌else◌, Text, set,
  Result, ok, err, ◌>>=◌, registry_lookup_failed,
}
use internal.Release.Intent.{is_commit}

pub record PublishedVersion : Type 0 where
  pub integrity : Option Text
  pub commit : Option Text

-- The maps `versions` and `tags`.
pub record Registry : Type 0 where
  pub versions : List (Text × PublishedVersion)
  pub tags : List (Text × Text)

-- The schema `NpmVersion`: `elmeraRelease` may be absent, and so may its `commit`.
pub record NpmVersion : Type 0 where
  pub dist_integrity : Option Text
  pub elmera_release : Option (Option Text)
  pub git_head : Option Text

-- The schema `NpmPackument`: the entries of two JSON objects.
pub record NpmPackument : Type 0 where
  pub versions : List (Text × NpmVersion)
  pub dist_tags : List (Text × Text)

-- What the transport returns.
pub record Response : Type 0 where
  pub status : ℕ
  pub body : Text

-- `response.ok`
response_ok : Response → Bool
response_ok r = leb 200 r.status && ltb r.status 300

usable : Option Text → Option Text
usable none = none
usable (some value) = if is_commit value then some value else none

recorded_or_head : Option (Option Text) → Option Text → Option Text
recorded_or_head (some recorded) head = usable recorded
recorded_or_head none head = usable head

pub published_commit : NpmVersion → Option Text
unfolding usable recorded_or_head
published_commit manifest = recorded_or_head manifest.elmera_release manifest.git_head

-- The loop of `fetchRegistry` over the versions.
record_versions :
    List (Text × PublishedVersion) → List (Text × NpmVersion) → List (Text × PublishedVersion)
record_versions versions [] = versions
record_versions versions ((version, manifest) ∷ rest) =
    record_versions
      (set version
        (record { integrity = manifest.dist_integrity; commit = published_commit manifest })
        versions)
      rest

-- `new Map(entries)`
map_of : List (Text × Text) → List (Text × Text) → List (Text × Text)
map_of m [] = m
map_of m ((k, v) ∷ rest) = map_of (set k v m) rest

-- `decode` is `decodeJson` at the schema `NpmPackument`.
pub fetch_registry : (Text → Result NpmPackument) → Response → Result Registry
unfolding response_ok record_versions map_of
fetch_registry decode response =
    if response.status == 404
    then ok (record { versions = []; tags = [] })
    else if not (response_ok response)
    then err (registry_lookup_failed response.status)
    else do
      data' ← decode response.body
      ok (record { versions = record_versions [] data'.versions; tags = map_of [] data'.dist_tags })
