-- ===== src/Version/Checked.antt =====
-- What UpdateVersionWithValidation of pkg/providers/version/version.go reports over its runs.
use karpenter_provider_huawe.Base.{
  ℕ, ◌+◌, ◌≤◌, ◌≡◌, ◌∙◌, refl, ap, String, Bool, true, false, Option, some, if◌then◌else◌, Result,
  ok, ◌↔◌, arith, List, [], ◌∷◌, All,
}
use karpenter_provider_huawe.Ext.Kubernetes.{Cluster}
use karpenter_provider_huawe.Version.{
  State, get, get_k8s_version, update_version, validate_k8s_version, validating_failed,
  update_version_with_validation, min_k8s_version, max_k8s_version,
}

module _ (K : Cluster) where
  -- The API server always answers with one version.
  abbrev pub Serves : String → Type 0
  Serves v = (w : K.World) → (get_k8s_version K w).0 ≡ ok v

  -- What the change monitor has reported as changed it does not report again before its timeout.
  abbrev pub Remembers : ℕ → Type 0
  Remembers timeout =
      (now later : ℕ) (v : String) (m : K.Monitor)
      → (K.version_changed now v m).0 ≡ true
      → later ≤ now + timeout
      → K.version_changed later v (K.version_changed now v m).1
        ≡ (false, (K.version_changed now v m).1)

  -- What a run reports of a version that has changed.
  abbrev pub report : String → Option (Result (Unit {0}))
  report v = validating_failed K (validate_k8s_version K v)

  abbrev reported : Bool → String → Option (Result (Unit {0}))
  reported changed v = if changed then report v else some (ok tt)

  -- Runs one after the other, at the given times.
  abbrev pub runs : List ℕ → State K → State K
  runs [] p = p
  runs (now ∷ times) p = runs times (update_version_with_validation K now p).1

  abbrev pub NotAfter : ℕ → ℕ → Type 0
  NotAfter end time = time ≤ end

  run :
      (now : ℕ) (v : String)
      → Serves v
      → (p : State K)
      → update_version_with_validation K now p ≡ (
        reported (K.version_changed now v p.monitor).0 v,
        record {
          version = some v;
          monitor = (K.version_changed now v p.monitor).1;
          world = (get_k8s_version K p.world).1;
        },
      )
  unfolding update_version_with_validation update_version get
  run now v serves p = rw (serves p.world) refl

  -- A monitor that has seen the version, up to some time.
  abbrev HasSeen : String → ℕ → State K → Type 0
  HasSeen v end p =
      (time : ℕ) → time ≤ end → K.version_changed time v p.monitor ≡ (false, p.monitor)

  runs-quiet :
      (v : String)
      → Serves v
      → (end last : ℕ) → last ≤ end
      → (times : List ℕ) → All (NotAfter end) times
      → (p : State K) → HasSeen v end p
      → (update_version_with_validation K last (runs times p)).0 ≡ some (ok tt)
  runs-quiet v serves end last in_time [] times_in p seen =
      rw (run last v serves p, seen last in_time) refl
  runs-quiet v serves end last in_time (now ∷ times) (now_in, times_in) p seen =
      runs-quiet v serves end last in_time times times_in (update_version_with_validation K now p).1
        (λ time h. rw (run now v serves p, seen now now_in) (seen time h))

  -- While the API server answers with one version, a run for which that version is new reports it if
  -- it is out of range, and stores it all the same; and no run before the timeout of the change
  -- monitor reports it again, however many there are.
  pub update_version_with_validation-once :
      (v : String)
      → Serves v
      → (timeout : ℕ) → Remembers timeout
      → (now : ℕ) (p : State K) → (K.version_changed now v p.monitor).0 ≡ true
      → let first = update_version_with_validation K now p in
        (first.0 ≡ report v)
        × (get K first.1 ≡ some v)
        × ((times : List ℕ) (last : ℕ)
            → All (NotAfter (now + timeout)) times
            → last ≤ now + timeout
            → (update_version_with_validation K last (runs times first.1)).0 ≡ some (ok tt))
  unfolding get
  update_version_with_validation-once v serves timeout remembers now p changed = (
    ap (λ r. r.0) (run now v serves p) ∙ ap (λ c. reported c v) changed,
    ap (λ r. r.1.version) (run now v serves p),
    λ times last times_in last_in.
        runs-quiet v serves (now + timeout) last last_in times times_in _
          (λ time h. rw (run now v serves p) (remembers now time v p.monitor changed h)),
  )

  -- Of the versions that are parsed, exactly those from the least to the greatest pass the check.
  pub validate_k8s_version_iff :
      (v : String) (k least most : K.Version)
      → K.parse_generic v ≡ some k
      → K.parse_generic min_k8s_version ≡ some least
      → K.parse_generic max_k8s_version ≡ some most
      → (validate_k8s_version K v ≡ some (ok (tt {0})))
        ↔ ((K.less_than k least ≡ false) × (K.less_than most k ≡ false))
  unfolding validate_k8s_version
  validate_k8s_version_iff v k least most is_k is_least is_most =
      rw (is_k, is_least, is_most) ((λ h. ground (arith, h)), (λ (a, b). ground (arith, a, b)))
