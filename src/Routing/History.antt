-- ===== src/Routing/History.antt =====
-- `listVersions` of src/services/RoutingVersionManager.ts.
use workersql.Base.{
  is_some, ℕ, suc, zero, ◌+◌, ◌<◌, ◌≡◌, ◌∙◌, inl, inr, Bool, ◌&&◌, Option, some, String, arith, ltb,
  leb, nat_beq, Option-cases, any,
}
use workersql.Base.Sort.{sort_by-IsDescending, IsDescending, any-sort_by}
use workersql.Kv.{Kv}
use workersql.Routing.{
  RoutingPolicy, PolicyVersionInfo, history_key, key_eq, Doc, as_info, Stringified,
  get_current_version, list_versions, history_from, create_new_version,
}
use workersql.Routing.Versions.{published, create_valid, published_history, version-version_info}

abbrev pub is_version : ℕ → PolicyVersionInfo → Bool
is_version w i = nat_beq i.version w

module _ (kv : Kv key_eq Doc) where
  open kv use {Store, get, put, get-put}

  abbrev pub history : Store → ℕ → Option PolicyVersionInfo
  history s v = as_info (get s (history_key v))

  -- The entry under each version's key says that version.
  abbrev pub IsIndexed : Store → Type 0
  IsIndexed s = (v : ℕ) (i : PolicyVersionInfo) → history s v ≡ some i → i.version ≡ v

  history_from-any :
      (s : Store) (v rounds w : ℕ)
      → IsIndexed s
      → any (is_version w) (history_from kv s v rounds)
        ≡ (leb v w && (ltb w (v + rounds) && is_some (history s w)))
  unfolding history_from
  history_from-any s v zero w h = ground arith
  history_from-any s v (suc rounds) w h = elim (Option-cases (history s v)) [
    | inl e ↦ ground (arith, history_from-any s (v + 1) rounds w h)
    | inr (i, e) ↦ ground (arith, h v i e, history_from-any s (v + 1) rounds w h)
  ]

  -- The list of versions is sorted, newest first, and holds an entry for exactly those versions from 1
  -- to the current one that have a history entry.
  pub list_versions_lem :
      (s : Store)
      → IsIndexed s
      → IsDescending (λ i. i.version) (list_versions kv s)
        × ((w : ℕ)
            → any (is_version w) (list_versions kv s)
              ≡ (leb 1 w && (leb w (get_current_version kv s) && is_some (history s w))))
  unfolding list_versions
  list_versions_lem s h = (
    sort_by-IsDescending (λ i. i.version) (history_from kv s 1 (get_current_version kv s)),
    λ w.
        any-sort_by (λ i. i.version) (is_version w) (history_from kv s 1 (get_current_version kv s))
        ∙ history_from-any s 1 (get_current_version kv s) w h
        ∙ ground arith,
  )

  -- Publishing a policy keeps the history indexed by version.
  pub create-IsIndexed :
      (digest : Stringified → String) (s : Store) (p : RoutingPolicy) (d : Option String) (now : ℕ)
      → 0 < p.version
      → IsIndexed s
      → IsIndexed (create_new_version kv digest s p d now).1
  create-IsIndexed digest s p d now valid h v i e =
      entry_version v i (rw (create_valid kv digest s p d now valid) at e)
    where
      entry_version :
          (v : ℕ) (i : PolicyVersionInfo)
          → history (published kv digest s p d now) v ≡ some i
          → i.version ≡ v
      entry_version v i e = ground (
        arith,
        published_history kv digest s p d now v,
        version-version_info kv digest p d now (get_current_version kv s + 1),
        h v i,
      )
