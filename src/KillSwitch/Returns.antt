-- ===== src/KillSwitch/Returns.antt =====
-- A kill whose write arrives succeeds: what the endpoint and the ledger do can not undo or stop it.
use field_platform.Prelude.{
  String, Bool, true, false, Option, none, some, ◌≡◌, sym, subst, if◌then◌else◌,
}
use field_platform.Registry.{AgentStatus, killed, AgentRecord, is_retired}
use field_platform.KillSwitch.{
  Env, App, Endpoint, Event, operator_refused, http_409, kill_agent, Fetched, found, Written,
  written, not_registered, not_reachable, Resolution, resolved, no_ref, unresolved, malformed, Exit,
  returned, raised, M, pure, raise, continue, ◌>>=◌, ◌>>◌, case_option, ask, noted, send,
  ledger_note, check_authorized,
}
use field_platform.KillSwitch.Kill.{
  KillReport, is_killed, kill_answer, flip, kill_found, kill_fetched, kill_one,
}
use field_platform.KillSwitch.Signal.{
  call_endpoint, signal_at, signal_resolved, signal_endpoint, signal_and_ledger,
}

module _ {A : Type 0} where
  abbrev pub IsReturned : Exit A → Type 0
  IsReturned (returned a) = Unit
  IsReturned (raised e) = ⊥

module _ {W A : Type 0} where
  -- `m` raises in no state.
  pub record Returns (m : M W A) : Type 0 where
    pub at : (s : App W) → IsReturned (m s).0

module _ {W A : Type 0} where
  Returns-pure : (a : A) → Returns {W = W} (pure a)
  unfolding pure
  Returns-pure a = record { at = λ s. tt }

  Returns-ask : (f : W → A × W) → Returns (ask f)
  unfolding ask
  Returns-ask f = record { at = λ s. tt }

  Returns-if :
      (guard : Bool) (stop go : M W A)
      → Returns stop
      → Returns go
      → Returns (if guard then stop else go)
  Returns-if true stop go k l = k
  Returns-if false stop go k l = l

module _ {W A B : Type 0} where
  step-IsReturned :
      (out : Exit A × App W) (next : A → M W B)
      → IsReturned out.0
      → ((a : A) → Returns (next a))
      → IsReturned (continue out.0 next out.1).0
  step-IsReturned (returned a, s) next h k = (k a).at s
  step-IsReturned (raised e, s) next h k = elim h [ ]

  Returns-bind :
      (m : M W A) (next : A → M W B)
      → Returns m
      → ((a : A) → Returns (next a))
      → Returns (m >>= next)
  unfolding ◌>>=◌
  Returns-bind m next r k = record { at = λ s. step-IsReturned (m s) next (r.at s) k }

  Returns-case :
      (o : Option A) (absent : M W B) (next : A → M W B)
      → Returns absent
      → ((a : A) → Returns (next a))
      → Returns (case_option o absent next)
  Returns-case none absent next k l = k
  Returns-case (some a) absent next k l = l a

module _ {W : Type 0} (env : Env W) where
  Returns-noted : (e : Event) (ok : Bool) → Returns {W = W} (noted e ok)
  Returns-noted e true = record { at = λ s. tt }
  Returns-noted e false = record { at = λ s. tt }

  Returns-ledger_note : (e : Event) → Returns (ledger_note env e)
  unfolding ledger_note
  Returns-ledger_note e = Returns-bind _ _ (Returns-ask (env.append e)) (λ ok. Returns-noted e ok)

  Returns-send : (method url : String) (host : Option String) → Returns (send env method url host)
  unfolding send ask
  Returns-send method url host = record { at = λ s. tt }

  Returns-call_endpoint : (e : Endpoint) (method : String) → Returns (call_endpoint env e method)
  unfolding call_endpoint
  Returns-call_endpoint e method =
      Returns-bind _ _ (Returns-send method e.url e.hostname) (λ answer. Returns-pure _)

  Returns-signal_at : (id : String) (e : Endpoint) → Returns (signal_at env id e)
  unfolding signal_at
  Returns-signal_at id e =
      search (Returns-pure, Returns-if, Returns-case, Returns-call_endpoint) depth 20

  -- The manifest's endpoint is a text that `urlsplit` reads, if there is one.
  abbrev pub Reads : Resolution → Type 0
  Reads malformed = ⊥
  Reads _ = Unit

  Returns-signal_resolved :
      (id : String) (r : Resolution) → Reads r → Returns (signal_resolved env id r)
  Returns-signal_resolved id (resolved e) reads = Returns-signal_at id e
  Returns-signal_resolved id no_ref reads = Returns-pure _
  Returns-signal_resolved id unresolved reads = Returns-pure _
  Returns-signal_resolved id malformed reads = elim reads [ ]

  Returns-signal_endpoint :
      (id : String) (r : AgentRecord) (origin : Bool)
      → Reads (env.resolve r.manifest_ref)
      → Returns (signal_endpoint env id r origin)
  unfolding signal_endpoint
  Returns-signal_endpoint id r origin reads =
      Returns-if origin _ _ (Returns-pure _) (Returns-signal_resolved id _ reads)

  Returns-signal_and_ledger :
      (id : String) (r : AgentRecord) (origin : Bool)
      → Reads (env.resolve r.manifest_ref)
      → Returns (signal_and_ledger env id r origin)
  unfolding signal_and_ledger
  Returns-signal_and_ledger id r origin reads =
      Returns-bind _ _ (Returns-signal_endpoint id r origin reads)
        (λ result. Returns-bind _ _ (Returns-ledger_note _) (λ u. Returns-pure _))

module _ {W : Type 0} (env : Env W) (id : String)
    (writes : (w : W) → (env.set_status id killed w).0 ≡ written) where
  written-IsReturned : (a : Written) (s : App W) → a ≡ written → IsReturned (kill_answer env a s).0
  unfolding pure
  written-IsReturned written s h = tt
  written-IsReturned not_registered s h = cc
  written-IsReturned not_reachable s h = cc

  Returns-write : Returns (ask (env.set_status id killed) >>= λ a. kill_answer env a)
  unfolding ◌>>=◌ ask
  Returns-write = record { at = λ s. written-IsReturned _ _ (writes s.world) }

  Returns-flip : (st : AgentStatus) → Returns (flip env id st)
  unfolding flip
  Returns-flip st = Returns-if (is_killed st) _ _ (Returns-pure _) Returns-write

  Returns-check_authorized :
      (r : AgentRecord)
      → env.refuses "kill" r.manifest_ref ≡ false
      → Returns (check_authorized env "kill" r)
  unfolding check_authorized
  Returns-check_authorized r h =
      subst (λ b. Returns {W = W} (if b then raise operator_refused else pure tt)) (sym h)
        (Returns-pure tt)

  Returns-kill_found :
      (operator : String) (origin : Bool) (r : AgentRecord)
      → env.refuses "kill" r.manifest_ref ≡ false
      → is_retired r.status ≡ false
      → Reads env (env.resolve r.manifest_ref)
      → Returns (kill_found env id operator origin r)
  unfolding kill_found
  Returns-kill_found operator origin r allowed live reads =
      Returns-bind _ _ (Returns-check_authorized r allowed) (λ u.
        subst
          (λ b. Returns {W = W} {A = KillReport} (
            if b then raise http_409 else (do
              flip env id r.status
              result ← signal_and_ledger env id r origin
              ledger_note env (kill_agent id operator r.status)
              pure (record {
                agent_id = id;
                previous_status = r.status;
                endpoint_result = result;
              }))))
          (sym live)
          (Returns-bind _ _ (Returns-flip r.status) (λ v.
            Returns-bind _ _ (Returns-signal_and_ledger env id r origin reads)
              (λ result. Returns-bind _ _ (Returns-ledger_note env _) (λ x. Returns-pure _)))))

  fetched-IsReturned :
      (operator : String) (origin : Bool) (r : AgentRecord) (a : Fetched) (s : App W)
      → env.refuses "kill" r.manifest_ref ≡ false
      → is_retired r.status ≡ false
      → Reads env (env.resolve r.manifest_ref)
      → a ≡ found r
      → IsReturned (kill_fetched env id operator origin a s).0
  fetched-IsReturned operator origin r a s allowed live reads shown =
      subst (λ f. IsReturned (kill_fetched env id operator origin f s).0) (sym shown)
        ((Returns-kill_found operator origin r allowed live reads).at s)

  -- Where the registry shows an agent that is not retired, its operators are not refused, every write of its
  -- status as killed arrives and the manifest's endpoint, if there is one, is a text that `urlsplit` reads,
  -- `_kill_one` returns a report, whatever the ledger and the endpoint do.
  pub kill_one-IsReturned :
      (operator : String) (origin : Bool) (s : App W) (r : AgentRecord)
      → (env.get_agent id s.world).0 ≡ found r
      → env.refuses "kill" r.manifest_ref ≡ false
      → is_retired r.status ≡ false
      → Reads env (env.resolve r.manifest_ref)
      → IsReturned (kill_one env id operator origin s).0
  unfolding kill_one ◌>>=◌ ask
  kill_one-IsReturned operator origin s r shown allowed live reads =
      fetched-IsReturned operator origin r (env.get_agent id s.world).0 _ allowed live reads shown
