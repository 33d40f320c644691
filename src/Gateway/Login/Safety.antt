-- ===== src/Gateway/Login/Safety.antt =====
-- Theorems on a connection whatever the calls on it (src/ssh/mod.rs).
use central_ssh.Prelude.{
  by_option, by_test, ◌≡◌, refl, ap, inl, inr, true, ◌&&◌, Option, none, some, List, [], ◌∷◌, ok,
  Option-cases, arith, is_some, is_none_or, unwrap_or, not, is_empty,
}
use mathlib.Core.Path.{sym, subst}
use central_ssh.Prelude.Text.{Text, text_eq_class, trim}
use central_ssh.Abuse.Types.{Platform, IpAddr}
use central_ssh.Auth.Crypto.{Crypto}
use central_ssh.Auth.Buckets.{Floats}
use central_ssh.Config.Store.{Toml, ConfigStore}
use central_ssh.Gateway.Login.State.{
  KeyboardAuthState, await_password, SelectedTarget, accept, keyboard_interactive, GatewayHandler,
  new_client, Moment, AppState, Reply,
}
use central_ssh.Gateway.Login.Audit.{enforce_pre_auth_policy}
use central_ssh.Gateway.Login.Dialogue.{continue_dialogue, auth_keyboard_interactive}
use central_ssh.Gateway.Login.History.{
  Event, refused, answered, succeeded, menu_input, run, Call, call_of, calls_of, HasAcceptedUsers,
  Allowed, Authenticated,
}
use central_ssh.Gateway.Login.Sound.{
  IsIdentified, IsProxied, IsSound, IsAccepted, Gives, goes-Gives, later-IsSound, identified_by,
}
use central_ssh.Gateway.Login.Selection.{dialogue-Gives}
use central_ssh.Gateway.Login.Checks.{
  pre_auth-Checked, Checked-IsSound, refused-IsSound, succeeded-IsSound,
}
use central_ssh.Gateway.Login.Switches.{menu_input-IsSound}
use central_ssh.Gateway.Login.Progress.{is_accept, IsBacked, reject_login_goes}

module _ (P : Platform) (C : Crypto) (T : Toml) (F : Floats) where
  abbrev Calls : Type 0
  Calls = List (Call P C T F)

  -- What a reply gives if it leaves the configuration that the call is said to leave.
  record GivesTo (after : ConfigStore T P) (calls : Calls) (r : Reply P T F) : Type 0 where
    gives : r.app.store ≡ after → Gives P C T F calls r

  waiting-IsBacked :
      (calls : Calls) (o : Option KeyboardAuthState) (name : Text)
      → IsBacked P C T F calls o
      → IsBacked P C T F calls (some (unwrap_or o (await_password name)))
  waiting-IsBacked calls none name b = tt
  waiting-IsBacked calls (some state) name b = b

  continue-Gives :
      (m : Moment) (name : Text) (response : Option (Option Text)) (app : AppState P T F)
      (after : ConfigStore T P) (past : Calls) (h : GatewayHandler)
      → HasAcceptedUsers P C T F app.store
      → IsSound P C T F (call_of P C T F m response app.store after ∷ past) h
      → GivesTo after
          (call_of P C T F m response app.store after ∷ past)
          (continue_dialogue P C T F m name response h app)
  unfolding continue_dialogue
  continue-Gives m name none app after past h users s = record {
    gives = λ _. record {
      sound = record { backed = tt; identified = s.identified; proxied = s.proxied };
      accepted = λ e. absurd (ground arith);
    };
  }
  continue-Gives m name (some first) app after past h users s =
      by_test (GivesTo after _) (not (is_some h.keyboard_auth_state) && is_none_or first is_empty)
        (λ _. record {
          gives = λ _. record {
            sound = record { backed = tt; identified = s.identified; proxied = s.proxied };
            accepted = λ e. absurd (ground arith);
          };
        })
        (λ _. record {
          gives =
              dialogue-Gives P C T F m (unwrap_or first []) app after past
                (record h { keyboard_auth_state = none })
                (record { backed = tt; identified = s.identified; proxied = s.proxied })
                (unwrap_or h.keyboard_auth_state (await_password name)) users
                (waiting-IsBacked _ h.keyboard_auth_state name s.backed);
        })

  already-IsAccepted :
      (calls : Calls) (h : GatewayHandler)
      → IsSound P C T F calls h
      → (is_some h.authenticated_username && is_some h.proxy_session) ≡ true
      → IsAccepted P C T F calls h
  already-IsAccepted calls h s e = elim (Option-cases h.authenticated_username) [
    | inl nobody ↦ absurd (ground (arith, nobody, e))
    | inr (name, named) ↦ elim (Option-cases h.pending_target) [
      | inl nowhere ↦ absurd (
          subst (λ u. IsIdentified P C T F calls u none) named
            (subst (λ t. IsIdentified P C T F calls h.authenticated_username t) nowhere
              s.identified))
      | inr (target, chosen) ↦
          let (both, allowed) = identified_by P C T F calls s named chosen in
          record {
            name = name;
            target = target;
            is_name = named;
            is_target = chosen;
            authenticated = both;
            allowed = allowed;
          }
    ]
  ]

  answered-Gives :
      (m : Moment) (user : Text) (response : Option (Option Text)) (app : AppState P T F)
      (after : ConfigStore T P) (past : Calls) (h : GatewayHandler)
      → HasAcceptedUsers P C T F app.store
      → IsSound P C T F past h
      → GivesTo after
          (call_of P C T F m response app.store after ∷ past)
          (auth_keyboard_interactive P C T F m user response h app)
  unfolding auth_keyboard_interactive
  answered-Gives m user response app after past h users s =
      let r = enforce_pre_auth_policy P T F m keyboard_interactive (app, h) in
      let c = pre_auth-Checked P C T F m keyboard_interactive app h in
      let s' =
        later-IsSound P C T F (call_of P C T F m response app.store after) past r.1.1
          (Checked-IsSound P C T F past s c) in
      by_option (GivesTo after _) r.0
        (λ _.
          by_test (GivesTo after _)
            (is_some r.1.1.authenticated_username && is_some r.1.1.proxy_session)
            (λ both. record {
              gives =
                  λ _. record { sound = s'; accepted = λ _. already-IsAccepted _ r.1.1 s' both };
            })
            (λ _.
              by_test (GivesTo after _) (is_empty (trim user))
                (λ _. record {
                  gives = λ _. goes-Gives P C T F s' (reject_login_goes P C T F m none _ s'.backed);
                })
                (λ _.
                  subst
                    (λ store.
                      GivesTo after (call_of P C T F m response store after ∷ past)
                        (continue_dialogue P C T F m (trim user) response r.1.1 r.1.0))
                    c.store
                    (continue-Gives m (trim user) response r.1.0 after past r.1.1
                      (subst (HasAcceptedUsers P C T F) (sym c.store) users)
                      (later-IsSound P C T F _ past r.1.1 (Checked-IsSound P C T F past s c))))))
        (λ auth decided. record {
          gives = λ _. record {
            sound = s';
            accepted = λ e. absurd (ground (arith, c.decided, decided, e));
          };
        })

  -- Every call of the dialogue finds users that the validation accepts.
  abbrev pub AreAccepted : List (Event P C T F) → Type 0
  AreAccepted [] = Unit
  AreAccepted (refused _ m app ∷ es) = AreAccepted es
  AreAccepted (answered m user response app ∷ es) =
      HasAcceptedUsers P C T F app.store × AreAccepted es
  AreAccepted (succeeded connect app ∷ es) = AreAccepted es
  AreAccepted (menu_input channel bytes connect replays channels app ∷ es) = AreAccepted es

  run-IsSound :
      (peer : Option IpAddr) (events : List (Event P C T F))
      → AreAccepted events
      → IsSound P C T F (calls_of P C T F peer events) (run P C T F peer events)
  unfolding run new_client calls_of
  run-IsSound peer [] users = record { backed = tt; identified = tt; proxied = tt }
  run-IsSound peer (refused kind m app ∷ es) users =
      refused-IsSound P C T F (calls_of P C T F peer es) (run-IsSound peer es users) m kind app
  run-IsSound peer (answered m user response app ∷ es) users =
      ((answered-Gives m user response app _ (calls_of P C T F peer es) (run P C T F peer es)
          users.0 (run-IsSound peer es users.1)).gives
        refl).sound
  run-IsSound peer (succeeded connect app ∷ es) users =
      succeeded-IsSound P C T F (calls_of P C T F peer es) (run-IsSound peer es users) connect app
  run-IsSound peer (menu_input channel bytes connect replays channels app ∷ es) users =
      menu_input-IsSound P C T F app (calls_of P C T F peer es) channel bytes connect replays
        channels (run P C T F peer es)
        (later-IsSound P C T F _ (calls_of P C T F peer es) (run P C T F peer es)
          (run-IsSound peer es users))

  -- The dialogue accepts a session only for a user who was given with the password and with a
  -- one-time code, and for a server that is chosen from the user's list: whatever the calls on the
  -- connection, the inputs of the menu of its channels among them, and whatever happened to the
  -- application between them, if the users that each call of the dialogue finds are ones that the
  -- validation accepts, then some call had as its response the password of the hash that a call
  -- found for the user, some call had as its response a code that checks at its time for a secret
  -- that a call found for the user or left the user with, and some call found the server in the
  -- user's list, at the host that the session is to reach.
  pub auth_keyboard_interactive-IsAccepted :
      (peer : Option IpAddr) (events : List (Event P C T F)) (m : Moment) (user : Text)
      (response : Option (Option Text)) (app : AppState P T F)
      → AreAccepted (answered m user response app ∷ events)
      → (auth_keyboard_interactive P C T F m user response (run P C T F peer events) app).result
        ≡ ok accept
      → IsAccepted P C T F
          (calls_of P C T F peer (answered m user response app ∷ events))
          (run P C T F peer (answered m user response app ∷ events))
  unfolding run calls_of
  auth_keyboard_interactive-IsAccepted peer events m user response app users done =
      ((answered-Gives m user response app _ (calls_of P C T F peer events)
            (run P C T F peer events) users.0 (run-IsSound peer events users.1)).gives
          refl).accepted
        (ap is_accept done)

  -- A connection has a proxy session, of the login or of a switch in the menu of a channel, only to
  -- a server that some call found in the list of a user, and only if that user was given with the
  -- password and with a one-time code, under the same conditions.
  pub proxy_session-IsProxied :
      (peer : Option IpAddr) (events : List (Event P C T F)) (target : SelectedTarget)
      → AreAccepted events
      → (run P C T F peer events).proxy_session ≡ some target
      → (name : Text) × Authenticated P C T F (calls_of P C T F peer events) name
        × Allowed P C T F (calls_of P C T F peer events) name target
  proxy_session-IsProxied peer events target users reached =
      subst (IsProxied P C T F (calls_of P C T F peer events)) reached
        (run-IsSound peer events users).proxied
