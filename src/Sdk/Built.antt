-- ===== src/Sdk/Built.antt =====
-- How often the services of pkg/huawei build their client.
use karpenter_provider_huawe.Base.{
  ◌⊎◌, ℕ, ◌+◌, ◌≤◌, ◌≡◌, refl, sym, ◌∙◌, ap, subst, Bool, true, false, List, [], ◌∷◌, none, some,
  if◌then◌else◌, Result, ok, err, Error, arith, Option-cases, ok_ne_err, inl, inr,
}
use karpenter_provider_huawe.Sdk.{
  Sdk, Service, get_client, sent, call, client_or_build, keep_client,
}

abbrev pub is_ok {ℓ} : {A : Type ℓ} → Result A → Bool
is_ok (ok a) = true
is_ok (err e) = false

error_or {ℓ} : {A : Type ℓ} → Error → Result A → Error
error_or other (err e) = e
error_or other (ok a) = other

module _ {Method : Type 0} (K : Sdk Method) where
  -- A request for one of the methods.
  abbrev pub Call : Type 0
  Call = (m : Method) × K.Request m

  -- The requests one after the other.
  abbrev pub run : List Call → Service K → Service K
  run [] s = s
  run ((m, request) ∷ calls) s = run calls (call K m request s).1

  -- What the SDK's world tells of SafeBuild: how often it was called, and how often with success.
  -- No method calls it.
  pub record SafeBuilds : Type 0 where
    pub asked : K.World → ℕ
    pub built : K.World → ℕ
    pub asked-safe_build :
        (config : K.HttpConfig) (w : K.World) → asked (K.safe_build config w).1 ≡ asked w + 1
    pub built-safe_build :
        (config : K.HttpConfig) (w : K.World)
        → built (K.safe_build config w).1
          ≡ (if is_ok (K.safe_build config w).0 then built w + 1 else built w)
    pub asked-send :
        (m : Method) (client : K.Client) (request : K.Request m) (w : K.World)
        → asked (K.send m client request w).1 ≡ asked w
    pub built-send :
        (m : Method) (client : K.Client) (request : K.Request m) (w : K.World)
        → built (K.send m client request w).1 ≡ built w

  sent-client :
      (m : Method) (request : K.Request m) (got : Result K.Client × Service K)
      → (sent K m request got).1.client ≡ got.1.client
  unfolding sent
  sent-client m request (err e, s) = refl
  sent-client m request (ok client, s) = refl

  call-client :
      (m : Method) (request : K.Request m) (s : Service K) (client : K.Client)
      → s.client ≡ some client
      → (call K m request s).1.client ≡ some client
  unfolding call get_client
  call-client m request s client e =
      sent-client m request (client_or_build K s.client s)
      ∙ subst (λ o. (client_or_build K o s).1.client ≡ some client) (sym e) e

  -- A service keeps its client.
  run-client :
      (calls : List Call) (s : Service K) (client : K.Client)
      → s.client ≡ some client
      → (run calls s).client ≡ some client
  run-client [] s client e = e
  run-client ((m, request) ∷ calls) s client e =
      run-client calls (call K m request s).1 client (call-client m request s client e)

  module _ (counts : SafeBuilds) where
    open counts use {asked, built, asked-safe_build, built-safe_build, asked-send, built-send}

    sent-counts :
        (m : Method) (request : K.Request m) (got : Result K.Client × Service K)
        → (asked (sent K m request got).1.world ≡ asked got.1.world)
          × (built (sent K m request got).1.world ≡ built got.1.world)
    unfolding sent
    sent-counts m request (err e, s) = (refl, refl)
    sent-counts m request (ok client, s) =
        (asked-send m client request s.world, built-send m client request s.world)

    call-counts :
        (m : Method) (request : K.Request m) (s : Service K) (client : K.Client)
        → s.client ≡ some client
        → (asked (call K m request s).1.world ≡ asked s.world)
          × (built (call K m request s).1.world ≡ built s.world)
    unfolding call get_client
    call-counts m request s client e =
        subst
          (λ o.
            (asked (sent K m request (client_or_build K o s)).1.world ≡ asked s.world)
            × (built (sent K m request (client_or_build K o s)).1.world ≡ built s.world))
          (sym e) (sent-counts m request (ok client, s))

    -- With a client, SafeBuild is not called again.
    run-counts :
        (calls : List Call) (s : Service K) (client : K.Client)
        → s.client ≡ some client
        → (asked (run calls s).world ≡ asked s.world) × (built (run calls s).world ≡ built s.world)
    run-counts [] s client e = (refl, refl)
    run-counts ((m, request) ∷ calls) s client e =
        let (a, b) = call-counts m request s client e in
        let (no_calls, no_builds) =
          run-counts calls (call K m request s).1 client (call-client m request s client e) in
        (no_calls ∙ a, no_builds ∙ b)

    -- What a request does to a service that has no client: it builds one, or fails to.
    abbrev Tried : ℕ → Service K → Type 0
    Tried n t =
        ((client : K.Client) × (t.client ≡ some client) × (built t.world ≡ n + 1))
        ⊎ ((t.client ≡ none) × (built t.world ≡ n))

    keep_client-Tried :
        (m : Method) (request : K.Request m) (s : Service K) (got : Result K.Client × K.World)
        → s.client ≡ none
        → built got.1 ≡ (if is_ok got.0 then built s.world + 1 else built s.world)
        → Tried (built s.world) (sent K m request (keep_client K s got)).1
    keep_client-Tried m request s (err e, w) missing n = inr (
      sent-client m request (err e, record s { world = w }) ∙ missing,
      (sent-counts m request (err e, record s { world = w })).1 ∙ n,
    )
    keep_client-Tried m request s (ok client, w) missing n =
        let got : Result K.Client × Service K =
          (ok client, record s { client = some client; world = w }) in
        inl (client, sent-client m request got, (sent-counts m request got).1 ∙ n)

    call-Tried :
        (m : Method) (request : K.Request m) (s : Service K)
        → s.client ≡ none
        → Tried (built s.world) (call K m request s).1
    unfolding call get_client
    call-Tried m request s missing =
        subst (λ o. Tried (built s.world) (sent K m request (client_or_build K o s)).1)
          (sym missing)
          (keep_client-Tried m request s (K.safe_build s.http_config s.world) missing
            (built-safe_build s.http_config s.world))

    run-built-le :
        (calls : List Call) (s : Service K)
        → s.client ≡ none
        → built (run calls s).world ≤ built s.world + 1
    run-built-le [] s missing = omega arith
    run-built-le ((m, request) ∷ calls) s missing = elim (call-Tried m request s missing) [
      | inl (client, e, n) ↦
          let (_, same) = run-counts calls (call K m request s).1 client e in omega (arith, same, n)
      | inr (e, n) ↦ omega (arith, run-built-le calls (call K m request s).1 e, n)
    ]

    -- Whatever requests a service gets, in whatever order, SafeBuild builds at most one client for
    -- them; and if the service has a client, SafeBuild is not called at all and the client stays.
    -- The SDK's world tells how often SafeBuild was called and how often it built a client.
    pub run-builds_once :
        (calls : List Call) (s : Service K)
        → (built (run calls s).world ≤ built s.world + 1)
          × ((client : K.Client)
              → s.client ≡ some client
              → (asked (run calls s).world ≡ asked s.world) × ((run calls s).client ≡ some client))
    run-builds_once calls s = (
      elim (Option-cases s.client) [
        | inl e ↦ run-built-le calls s e
        | inr (client, e) ↦ let (_, same) = run-counts calls s client e in omega (arith, same)
      ],
      λ client e. ((run-counts calls s client e).0, run-client calls s client e),
    )

  keep_client-err_lem :
      (m : Method) (request : K.Request m) (s : Service K) (e : Error)
      (got : Result K.Client × K.World)
      → got.0 ≡ err e
      → ((sent K m request (keep_client K s got)).0 ≡ err e)
        × ((sent K m request (keep_client K s got)).1.client ≡ s.client)
  unfolding sent error_or
  keep_client-err_lem m request s e (err x, w) h = (ap (λ r. err (error_or e r)) h, refl)
  keep_client-err_lem m request s e (ok client, w) h = absurd (ok_ne_err h)

  -- A request whose build of the client fails answers with that error and leaves the service without
  -- a client, so that the next request builds one again.
  pub call-retries :
      (m : Method) (request : K.Request m) (s : Service K) (e : Error)
      → s.client ≡ none
      → (K.safe_build s.http_config s.world).0 ≡ err e
      → ((call K m request s).0 ≡ err e) × ((call K m request s).1.client ≡ none)
  unfolding call get_client
  call-retries m request s e missing failed =
      let (answered, kept) =
        keep_client-err_lem m request s e (K.safe_build s.http_config s.world) failed in
      subst
        (λ o.
          ((sent K m request (client_or_build K o s)).0 ≡ err e)
          × ((sent K m request (client_or_build K o s)).1.client ≡ none))
        (sym missing) (answered, kept ∙ missing)
