-- ===== src/Instance/Kubelet/Reserved.antt =====
-- What pkg/providers/instance/instance.go accepts as kubelet settings, and what it sends.
use karpenter_provider_huawe.Base.{
  ℕ, ◌≡◌, ◌⊎◌, ◌↔◌, refl, subst, String, Bool, true, false, [], ◌∷◌, Option, none, some, ◌==◌,
  Result, ok, err, Error, fail_if, ◌>>=◌, ◌>>◌, >>=-eq-ok, arith, All, eq_iff, Bool-cases, inl, inr,
}
use karpenter_provider_huawe.Base.Int.{ℤ, pos, negsuc, ◌≤ℤ◌}
use karpenter_provider_huawe.Base.Maps.{Map}
use karpenter_provider_huawe.Apis.{KubeletConfiguration}
use karpenter_provider_huawe.Instance.Kubelet.{
  Quantities, ReservedValues, no_values, to_create_node_int32, parse_quantity_as_milli_value,
  parse_quantity_as_binary_unit_value, parse_pid_value, reserve_entry, reserve_entries,
  parse_reserved_values, max_pods_out_of_range, validate_kubelet_for_create_node, NodeExtendParam,
  extend_param, resolve_create_node_kubelet,
}

-- A value that CreateNode takes: not negative, and an int32.
abbrev pub Fits : Option ℤ → Type 0
Fits none = Unit
Fits (some v) = (pos 0 ≤ℤ v) × (v ≤ℤ pos 2147483647)

pub record AllFit (v : ReservedValues) : Type 0 where
  pub cpu : Fits v.cpu
  pub memory : Fits v.memory
  pub pid : Fits v.pid
  pub storage : Fits v.storage

abbrev pub IsSupported : String × String → Type 0
IsSupported (key, text) =
    (key ≡ "cpu") ⊎ (key ≡ "memory") ⊎ (key ≡ "ephemeral-storage") ⊎ (key ≡ "pid")

to_create_node_int32-Fits : (z v : ℤ) → to_create_node_int32 z ≡ ok v → Fits (some v)
unfolding to_create_node_int32
to_create_node_int32-Fits (pos n) v h = ground arith
to_create_node_int32-Fits (negsuc n) v h = cc

module _ (Q : Quantities) where
  milli-Fits : (t : String) (v : ℤ) → parse_quantity_as_milli_value Q t ≡ ok v → Fits (some v)
  unfolding parse_quantity_as_milli_value
  milli-Fits t v h = ground arith

  units-Fits :
      (unit : ℕ) (t : String) (v : ℤ)
      → parse_quantity_as_binary_unit_value Q unit t ≡ ok v
      → Fits (some v)
  unfolding parse_quantity_as_binary_unit_value
  units-Fits unit t v h = ground arith

  pid-Fits : (t : String) (v : ℤ) → parse_pid_value Q t ≡ ok v → Fits (some v)
  unfolding parse_pid_value
  pid-Fits t v h = ground arith

  -- A value that is parsed is put into the field `put` of what is fit.
  put-AllFit :
      (put : ℤ → ReservedValues) (m : Result ℤ) (w : ReservedValues)
      → ((v : ℤ) → m ≡ ok v → Fits (some v))
      → ((v : ℤ) → Fits (some v) → AllFit (put v))
      → (m >>= λ v. ok (put v)) ≡ ok w
      → AllFit w
  put-AllFit put (ok v) w fits keeps h =
      let same : put v ≡ w = cc in subst AllFit same (keeps v (fits v refl))
  put-AllFit put (err e) w fits keeps h = cc

  module _ (key text : String) (out w : ReservedValues) (f : AllFit out) where
    supported : (reserve_entry Q key text out ≡ ok w) → IsSupported (key, text)
    unfolding reserve_entry
    supported h = ground (
      arith,
      eq_iff key "cpu",
      eq_iff key "memory",
      eq_iff key "ephemeral-storage",
      eq_iff key "pid",
    )

    reserve_entry-AllFit : reserve_entry Q key text out ≡ ok w → AllFit w
    unfolding reserve_entry
    reserve_entry-AllFit h = elim (Bool-cases (key == "cpu")) [
      | inl e ↦
          put-AllFit (λ v. record out { cpu = some v }) _ w (milli-Fits text)
            (λ v g. record { cpu = g; memory = f.memory; pid = f.pid; storage = f.storage })
            (rw e at h)
      | inr e ↦ elim (Bool-cases (key == "memory")) [
        | inl m ↦
            put-AllFit (λ v. record out { memory = some v }) _ w (units-Fits _ text)
              (λ v g. record { cpu = f.cpu; memory = g; pid = f.pid; storage = f.storage })
              (rw (e, m) at h)
        | inr m ↦ elim (Bool-cases (key == "ephemeral-storage")) [
          | inl s ↦
              put-AllFit (λ v. record out { storage = some v }) _ w (units-Fits _ text)
                (λ v g. record { cpu = f.cpu; memory = f.memory; pid = f.pid; storage = g })
                (rw (e, m, s) at h)
          | inr s ↦ elim (Bool-cases (key == "pid")) [
            | inl p ↦
                put-AllFit (λ v. record out { pid = some v }) _ w (pid-Fits text)
                  (λ v g. record { cpu = f.cpu; memory = f.memory; pid = g; storage = f.storage })
                  (rw (e, m, s, p) at h)
            | inr p ↦ ground (arith, e, m, s, p)
          ]
        ]
      ]
    ]

  reserve_entries-AllFit :
      (values : Map String) (out w : ReservedValues)
      → AllFit out
      → reserve_entries Q values out ≡ ok w
      → AllFit w × All IsSupported values
  unfolding reserve_entries
  reserve_entries-AllFit [] out w f h = let same : out ≡ w = cc in (subst AllFit same f, tt)
  reserve_entries-AllFit ((key, text) ∷ values) out w f h =
      let (v, one, rest) = >>=-eq-ok (reserve_entry Q key text out) (reserve_entries Q values) h in
      let (fits, all) =
        reserve_entries-AllFit values v w (reserve_entry-AllFit key text out v f one) rest in
      (fits, (supported key text out v f one, all))

  -- Whatever map of reservations is accepted, its keys are the four that CreateNode knows and the
  -- values are numbers from 0 to the greatest int32.
  pub parse_reserved_values-AllFit :
      (values : Map String) (w : ReservedValues)
      → parse_reserved_values Q values ≡ ok w
      → AllFit w × All IsSupported values
  unfolding parse_reserved_values
  parse_reserved_values-AllFit values w h =
      reserve_entries-AllFit values no_values w
        (record { cpu = tt; memory = tt; pid = tt; storage = tt }) h

  pub validated :
      (m : Result (Unit {0})) (a b : Result ReservedValues)
      → (m >> (a >>= λ _. b >>= λ _. ok (tt {0}))) ≡ ok (tt {0})
      → (v w : ReservedValues) × (m ≡ ok (tt {0})) × (a ≡ ok v) × (b ≡ ok w)
  validated (ok _) (ok v) (ok w) h = (v, w, refl, refl, refl)
  validated (ok _) (ok v) (err e) h = cc
  validated (ok _) (err e) b h = cc
  validated (err e) a b h = cc

  resolved :
      (k : KubeletConfiguration) (m : Result (Unit {0})) (a b : Result ReservedValues)
      (p : Option NodeExtendParam)
      → ((m >> (a >>= λ _. b >>= λ _. ok (tt {0}))) >>= λ _.
          a >>= λ kube. b >>= λ system. ok (extend_param k kube system))
        ≡ ok p
      → (v w : ReservedValues) × (m ≡ ok (tt {0}))
        × (a ≡ ok v)
        × (b ≡ ok w)
        × (p ≡ extend_param k v w)
  resolved k (ok _) (ok v) (ok w) p h = (v, w, refl, refl, refl, cc)
  resolved k (ok _) (ok v) (err e) p h = cc
  resolved k (ok _) (err e) b p h = cc
  resolved k (err e) a b p h = cc

  -- A node class passes the check of its kubelet settings exactly if they can be turned into the
  -- parameters of CreateNode.
  pub resolve_iff_validate :
      (k : Option KubeletConfiguration)
      → (validate_kubelet_for_create_node Q k ≡ ok (tt {0}))
        ↔ ((p : Option NodeExtendParam) × (resolve_create_node_kubelet Q k ≡ ok p))
  unfolding resolve_create_node_kubelet validate_kubelet_for_create_node
  resolve_iff_validate none = ((λ h. (none, refl)), (λ h. refl))
  resolve_iff_validate (some k) = (
    (λ h. let (v, w, m, a, b) = validated _ _ _ h in (extend_param k v w, rw (m, a, b))),
    (λ (p, h). let (v, w, m, a, b, e) = resolved k _ _ _ p h in rw (m, a, b)),
  )

  sent : KubeletConfiguration → ReservedValues → ReservedValues → NodeExtendParam
  sent k v w = record { max_pods = k.max_pods; kube_reserved = v; system_reserved = w }

  extend_param-sent :
      (k : KubeletConfiguration) (v w : ReservedValues) (p : NodeExtendParam)
      → some p ≡ extend_param k v w
      → sent k v w ≡ p
  unfolding extend_param sent
  extend_param-sent k v w p e = ground arith

  fail_if-ok : (b : Bool) (e : Error) → fail_if b e ≡ ok (tt {0}) → b ≡ false
  fail_if-ok true e h = cc
  fail_if-ok false e h = refl

  -- At least 16 pods and at most 256, if a number is given.
  abbrev pub IsPodLimit : Option ℤ → Type 0
  IsPodLimit none = Unit
  IsPodLimit (some n) = (pos 16 ≤ℤ n) × (n ≤ℤ pos 256)

  max_pods-IsPodLimit : (o : Option ℤ) → max_pods_out_of_range o ≡ false → IsPodLimit o
  max_pods-IsPodLimit none h = tt
  max_pods-IsPodLimit (some n) h = ground arith

  -- What is sent to CreateNode: a limit of pods and reservations that fit in an int32.
  pub record IsSendable (p : NodeExtendParam) : Type 0 where
    pub max_pods : IsPodLimit p.max_pods
    pub kube : AllFit p.kube_reserved
    pub system : AllFit p.system_reserved

  -- The settings that are sent for a node class limit the pods, if at all, to a number from 16 to 256,
  -- which is the class's, and reserve numbers from 0 to the greatest int32, which are those that the
  -- class's reservations are parsed to.
  pub resolve-IsSendable :
      (k : KubeletConfiguration) (p : NodeExtendParam)
      → resolve_create_node_kubelet Q (some k) ≡ ok (some p)
      → IsSendable p
        × (p.max_pods ≡ k.max_pods)
        × (parse_reserved_values Q k.kube_reserved ≡ ok p.kube_reserved)
        × (parse_reserved_values Q k.system_reserved ≡ ok p.system_reserved)
  unfolding resolve_create_node_kubelet validate_kubelet_for_create_node sent
  resolve-IsSendable k p h =
      let (v, w, m, a, b, e) = resolved k _ _ _ (some p) h in
      let same : sent k v w ≡ p = extend_param-sent k v w p e in
      subst
        (λ q.
          IsSendable q
          × (q.max_pods ≡ k.max_pods)
          × (parse_reserved_values Q k.kube_reserved ≡ ok q.kube_reserved)
          × (parse_reserved_values Q k.system_reserved ≡ ok q.system_reserved))
        same
        (
          record {
            max_pods = max_pods-IsPodLimit k.max_pods (fail_if-ok _ _ m);
            kube = (parse_reserved_values-AllFit k.kube_reserved v a).0;
            system = (parse_reserved_values-AllFit k.system_reserved w b).0;
          },
          refl,
          a,
          b,
        )
