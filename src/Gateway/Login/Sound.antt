-- ===== src/Gateway/Login/Sound.antt =====
-- Sound connections of src/ssh/mod.rs: the fields of the handler against the calls on it.
use central_ssh.Prelude.{◌≡◌, true, Option, none, some, List, ◌∷◌, arith}
use mathlib.Core.Path.{sym, subst}
use mathlib.Core.List.{Memᴰ}
use central_ssh.Prelude.Text.{Text, text_eq_class}
use central_ssh.Abuse.Types.{Platform}
use central_ssh.Auth.Crypto.{Crypto}
use central_ssh.Auth.Buckets.{Floats}
use central_ssh.Config.Store.{Toml}
use central_ssh.Gateway.Login.State.{
  KeyboardAuthState, await_password, await_selection, await_existing_totp, await_new_password,
  await_confirm_password, await_enrollment_totp, SelectedTarget, GatewayHandler, Reply,
}
use central_ssh.Gateway.Login.History.{
  Call, Allowed, Authenticated, later, later-Allowed, later_password,
}
use central_ssh.Gateway.Login.Progress.{is_accept, IsBacked, GoesOn}

module _ (P : Platform) (C : Crypto) (T : Toml) (F : Floats) where
  abbrev Calls : Type 0
  Calls = List (Call P C T F)

  -- A user and a server, or neither.
  abbrev pub IsIdentified : Calls → Option Text → Option SelectedTarget → Type 0
  IsIdentified calls none none = Unit
  IsIdentified calls none (some _) = ⊥
  IsIdentified calls (some _) none = ⊥
  IsIdentified calls (some name) (some target) =
      Authenticated P C T F calls name × Allowed P C T F calls name target

  abbrev pub IsProxied : Calls → Option SelectedTarget → Type 0
  IsProxied calls none = Unit
  IsProxied calls (some target) =
      (name : Text) × Authenticated P C T F calls name × Allowed P C T F calls name target

  pub record IsSound (calls : Calls) (h : GatewayHandler) : Type 0 where
    pub backed : IsBacked P C T F calls h.keyboard_auth_state
    pub identified : IsIdentified calls h.authenticated_username h.pending_target
    pub proxied : IsProxied calls h.proxy_session

  -- Who is accepted, and for which server.
  pub record IsAccepted (calls : Calls) (h : GatewayHandler) : Type 0 where
    pub name : Text
    pub target : SelectedTarget
    pub is_name : h.authenticated_username ≡ some name
    pub is_target : h.pending_target ≡ some target
    pub authenticated : Authenticated P C T F calls name
    pub allowed : Allowed P C T F calls name target

  -- What a call of the dialogue gives.
  pub record Gives (calls : Calls) (r : Reply P T F) : Type 0 where
    pub sound : IsSound calls r.handler
    pub accepted : is_accept r.result ≡ true → IsAccepted calls r.handler

  pub goes-Gives :
      {calls : Calls} {h : GatewayHandler} {r : Reply P T F}
      → IsSound calls h
      → GoesOn P C T F calls h r
      → Gives calls r
  goes-Gives {calls} {h} {r} s g = record {
    sound = record {
      backed = g.backed;
      identified =
          subst (λ u. IsIdentified calls u r.handler.pending_target) (sym g.username)
            (subst (λ t. IsIdentified calls h.authenticated_username t) (sym g.target)
              s.identified);
      proxied = subst (IsProxied calls) (sym g.proxy) s.proxied;
    };
    accepted = λ e. absurd (ground (arith, e, g.going));
  }

  later-IsBacked :
      (call : Call P C T F) (past : Calls) (s : Option KeyboardAuthState)
      → IsBacked P C T F past s
      → IsBacked P C T F (call ∷ past) s
  later-IsBacked call past none b = tt
  later-IsBacked call past (some (await_password u)) b = tt
  later-IsBacked call past (some (await_existing_totp u p)) (c, at, i, e) = (c, at, Memᴰ.tail i, e)
  later-IsBacked call past (some (await_new_password c p)) b = later_password P C T F call b
  later-IsBacked call past (some (await_confirm_password c p n)) b = later_password P C T F call b
  later-IsBacked call past (some (await_enrollment_totp c t)) b = later_password P C T F call b
  later-IsBacked call past (some (await_selection c)) b = later P C T F call b

  later-IsIdentified :
      (call : Call P C T F) (past : Calls) (u : Option Text) (t : Option SelectedTarget)
      → IsIdentified past u t
      → IsIdentified (call ∷ past) u t
  later-IsIdentified call past none none b = tt
  later-IsIdentified call past none (some t) b = b
  later-IsIdentified call past (some u) none b = b
  later-IsIdentified call past (some u) (some t) b =
      (later P C T F call b.0, later-Allowed P C T F call b.1)

  later-IsProxied :
      (call : Call P C T F) (past : Calls) (t : Option SelectedTarget)
      → IsProxied past t
      → IsProxied (call ∷ past) t
  later-IsProxied call past none b = tt
  later-IsProxied call past (some t) (name, both, allowed) =
      (name, later P C T F call both, later-Allowed P C T F call allowed)

  pub later-IsSound :
      (call : Call P C T F) (past : Calls) (h : GatewayHandler)
      → IsSound past h
      → IsSound (call ∷ past) h
  later-IsSound call past h s = record {
    backed = later-IsBacked call past h.keyboard_auth_state s.backed;
    identified =
        later-IsIdentified call past h.authenticated_username h.pending_target s.identified;
    proxied = later-IsProxied call past h.proxy_session s.proxied;
  }

  module _ (calls : Calls) {h : GatewayHandler} (s : IsSound calls h) where
    pub identified_by :
        {name : Text} {target : SelectedTarget}
        → h.authenticated_username ≡ some name
        → h.pending_target ≡ some target
        → Authenticated P C T F calls name × Allowed P C T F calls name target
    identified_by {name} {target} named chosen =
        subst (λ u. IsIdentified calls u (some target)) named
          (subst (λ t. IsIdentified calls h.authenticated_username t) chosen s.identified)
