-- ===== src/Kv.antt =====
-- The key-value namespace `APP_CACHE` of the platform, which the services call and do not implement:
-- a parameter of the model, with the documented behaviour of `get`, `put` and `delete`.
use workersql.Base.{◌≡◌, Option, none, some, if◌then◌else◌, Eq}
use workersql.Dict
use workersql.Dict.{Dict}

pub record Kv {K : Type 0} (e : Eq K) (V : Type 0) : Type 1 where
  pub Store : Type 0
  pub get : Store → K → Option V
  pub put : Store → K → V → Store
  pub delete : Store → K → Store
  pub get-put :
      (s : Store) (k j : K) (v : V) → get (put s k v) j ≡ (if e.beq k j then some v else get s j)
  pub get-delete :
      (s : Store) (k j : K) → get (delete s k) j ≡ (if e.beq k j then none else get s j)

-- A namespace that shows that these can hold together.
abbrev pub dict_kv : {K : Type 0} (e : Eq K) (V : Type 0) → Kv e V
dict_kv {K} e V = record {
  Store = Dict K V;
  get = λ s k. Dict.get ⦃e = e⦄ s k;
  put = λ s k v. Dict.put ⦃e = e⦄ s k v;
  delete = λ s k. Dict.delete ⦃e = e⦄ s k;
  get-put = λ s k j v. Dict.get-put ⦃e = e⦄ s k j v;
  get-delete = λ s k j. Dict.get-delete ⦃e = e⦄ s k j;
}
