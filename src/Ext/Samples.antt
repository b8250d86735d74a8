-- ===== src/Ext/Samples.antt =====
-- Values of the interfaces: a cache that is a function with deadlines, and requirements that are
-- lists of allowed values.
use karpenter_provider_huawe.Base.{
  ℕ, ◌+◌, ◌≡◌, refl, String, List, [], ◌∷◌, Option, none, some, Bool, true, false, ◌==◌, ◌&&◌,
  if◌then◌else◌, leb, ltb, eqb, any, length, arith,
}
use karpenter_provider_huawe.Ext.GoCache.{GoCache}
use karpenter_provider_huawe.Ext.Scheduling.{Float64, Scheduling}

abbrev pub Timed : Type 0 → Type 0
Timed V = String → Option (V × ℕ)

abbrev pub timed_get : {V : Type 0} → ℕ → Option (V × ℕ) → Option V
timed_get now none = none
timed_get now (some (v, deadline)) = if leb now deadline then some v else none

abbrev pub timed_set : {V : Type 0} → ℕ → ℕ → String → V → Timed V → Timed V
timed_set now ttl k v s j = if k == j then some (v, now + ttl) else s j

pub timed_get-set :
    {V : Type 0} (now later ttl : ℕ) (k j : String) (v : V) (s : Timed V)
    → timed_get later (timed_set now ttl k v s j)
      ≡ (if k == j then (if leb later (now + ttl) then some v else none) else timed_get later (s j))
timed_get-set now later ttl k j v s = ground arith

abbrev pub timed_cache : (V : Type 0) → ℕ → GoCache V
timed_cache V ttl = record {
  Store = Timed V;
  default_ttl = ttl;
  empty = λ k. none;
  get = λ now k s. timed_get now (s k);
  set = timed_set;
  get-empty = λ now k. refl;
  get-set = timed_get-set;
}

-- Prices in whole units.
abbrev pub unit_prices : Float64
unit_prices = record { Float = ℕ; zero = 0; max_float = 1000000; lt = ltb; eq = eqb }

abbrev pub find_values : String → List (String × List String) → Option (List String)
find_values k [] = none
find_values k ((j, vs) ∷ rs) = if j == k then some vs else find_values k rs

abbrev pub allows : Option (List String) → String → Bool
allows none v = true
allows (some vs) v = any (λ w. w == v) vs

abbrev pub first_of_values : Option (List String) → String
first_of_values (some (v ∷ vs)) = v
first_of_values _ = ""

abbrev pub compatible_values : Option (List String) → List String → Bool
compatible_values none vs = true
compatible_values (some ws) vs = any (λ v. any (λ w. w == v) ws) vs

abbrev pub compatible_lists : List (String × List String) → List (String × List String) → Bool
compatible_lists reqs [] = true
compatible_lists reqs ((k, vs) ∷ rest) =
    compatible_values (find_values k reqs) vs && compatible_lists reqs rest

abbrev pub is_some {ℓ} : {A : Type ℓ} → Option A → Bool
is_some none = false
is_some (some a) = true

abbrev pub value_lists : Scheduling
value_lists = record {
  float = unit_prices;
  Requirements = List (String × List String);
  Requirement = List String;
  requirement = find_values;
  len = length;
  values = λ vs. vs;
  has = λ k rs. is_some (find_values k rs);
  get_has = λ k v rs. allows (find_values k rs) v;
  get_any = λ k rs. first_of_values (find_values k rs);
  new_in = λ rs. rs;
  add_absent = λ ks rs. rs;
  add_in = λ k vs rs. (k, vs) ∷ rs;
  compatible = compatible_lists;
}
