-- ===== src/Gateway/Login/Selection.antt =====
-- What the handler of the selection, and the dispatch of the dialogue, give (src/ssh/mod.rs).
use central_ssh.Prelude.{
  by_result, by_option, by_test, ℕ, zero, suc, ◌≡◌, refl, ap, inl, inr, true, false, Option, none,
  some, and_then, List, [], ◌∷◌, ok, Option-cases, arith, length, get_elem?, contains,
}
use mathlib.Core.List.{Memᴰ}
use central_ssh.Prelude.Text.{Text, text_eq_class, text_eq_iff}
use central_ssh.Prelude.Assoc.{lookup}
use central_ssh.Abuse.Types.{Platform}
use central_ssh.Auth.Crypto.{Crypto}
use central_ssh.Auth.Buckets.{Floats}
use central_ssh.Config.Types.{Servers}
use central_ssh.Config.Validate.{find_user}
use central_ssh.Config.Store.{Toml, ConfigStore}
use central_ssh.Gateway.Login.State.{
  PendingAuthContext, KeyboardAuthState, await_password, await_selection, await_existing_totp,
  await_new_password, await_confirm_password, await_enrollment_totp, accept, GatewayHandler, Moment,
  AppState,
}
use central_ssh.Gateway.Login.Entries.{
  server_entries, allowed_server_entries, is_quit, selected_index, handle_selection_response,
}
use central_ssh.Gateway.Login.Dialogue.{respond}
use central_ssh.Gateway.Login.History.{Call, HasAcceptedUsers, Allowed, Authenticated}
use central_ssh.Gateway.Login.Sound.{IsSound, Gives, goes-Gives}
use central_ssh.Gateway.Login.Progress.{is_selection, IsBacked, prompt_selection_goes}
use central_ssh.Gateway.Login.Steps.{response_goes}

-- An entry of the menu is a server of the list, at its host.
server_entries_sound :
    (servers : Servers) (names : List Text) (i : ℕ) {name host : Text}
    → get_elem? (server_entries servers names) i ≡ some (name, host)
    → (contains names name ≡ true) × (lookup name servers ≡ some host)
unfolding server_entries
server_entries_sound servers [] i {name} {host} h = absurd (ground arith)
server_entries_sound servers (n ∷ names) zero {name} {host} h = ground (
  arith,
  server_entries_sound servers names zero {name = name} {host = host},
  text_eq_iff n name,
  ap (λ k. lookup k servers),
)
server_entries_sound servers (n ∷ names) (suc i) {name} {host} h = ground (
  arith,
  server_entries_sound servers names i {name = name} {host = host},
  server_entries_sound servers names (suc i) {name = name} {host = host},
  text_eq_iff n name,
)

module _ (P : Platform) (C : Crypto) (T : Toml) (F : Floats) where
  abbrev Calls : Type 0
  Calls = List (Call P C T F)

  module _ (response : Option (Text × ℕ)) (app : AppState P T F) (after : ConfigStore T P)
      (past : Calls) where
    abbrev answer : Call P C T F
    answer = record { response = response; store = app.store; after = after }

    pub Allowed-entry :
        (name : Text) (entries : List (Text × Text)) (i : ℕ) {target host : Text}
        → allowed_server_entries P C T F app name ≡ ok entries
        → get_elem? entries i ≡ some (target, host)
        → Allowed P C T F (answer ∷ past) name (record { name = target; host = host })
    unfolding allowed_server_entries
    Allowed-entry name entries i {target} {host} listed chosen =
        elim (Option-cases (find_user app.store.config.users name)) [
          | inl unknown ↦ absurd (ground (arith, unknown))
          | inr (user, found) ↦
              let facts =
                server_entries_sound app.store.servers user.allowed_servers i {name = target}
                  {host = host} (ground (arith, found, listed, chosen)) in
              record {
                chosen = answer;
                chosen_in = Memᴰ.head refl;
                user = user;
                found = found;
                allowed = facts.0;
                host = facts.1;
              }
        ]

  module _ (m : Moment) (text : Text) (app : AppState P T F) (after : ConfigStore T P)
      (past : Calls) (h : GatewayHandler) where
    abbrev now : Call P C T F
    now = record { response = some (text, m.code_time); store = app.store; after = after }

    module _ (s : IsSound P C T F (now ∷ past) h) where
      accepts :
          (context : PendingAuthContext) (entries : List (Text × Text)) (entry : Text × Text)
          → Authenticated P C T F (now ∷ past) context.user.name
          → allowed_server_entries P C T F app context.user.name ≡ ok entries
          → and_then (selected_index text (length entries)) (λ i. get_elem? entries i) ≡ some entry
          → Gives P C T F (now ∷ past) (record {
            result = ok accept;
            app = app;
            handler = record h {
              pending_target = some (record { name = entry.0; host = entry.1 });
              authenticated_username = some context.user.name;
              keyboard_auth_state = none;
            };
          })
      accepts context entries entry both listed chosen =
          let allowed : Allowed P C T F (now ∷ past) context.user.name
              (record { name = entry.0; host = entry.1 }) =
            elim (Option-cases (selected_index text (length entries))) [
              | inl out ↦ absurd (ground (arith, out, chosen))
              | inr (i, within) ↦
                  Allowed-entry (some (text, m.code_time)) app after past context.user.name entries
                    i {target = entry.0} {host = entry.1} listed (ground (arith, within, chosen))
            ] in
          record {
            sound = record { backed = tt; identified = (both, allowed); proxied = s.proxied };
            accepted = λ e. record {
              name = context.user.name;
              target = record { name = entry.0; host = entry.1 };
              is_name = refl;
              is_target = refl;
              authenticated = both;
              allowed = allowed;
            };
          }

      selection-Gives :
          (context : PendingAuthContext)
          → Authenticated P C T F (now ∷ past) context.user.name
          → Gives P C T F (now ∷ past) (handle_selection_response P C T F context text h app)
      unfolding handle_selection_response
      selection-Gives context both =
          by_test (Gives P C T F _) (is_quit text)
            (λ quit. record {
              sound = record { backed = tt; identified = tt; proxied = s.proxied };
              accepted = λ e. absurd (ground arith);
            })
            (λ stay.
              by_result (Gives P C T F _) (allowed_server_entries P C T F app context.user.name)
                (λ e bad. record { sound = s; accepted = λ e. absurd (ground arith) })
                (λ entries listed.
                  by_option (Gives P C T F _)
                    (and_then (selected_index text (length entries)) (λ i. get_elem? entries i))
                    (λ none_. goes-Gives P C T F s (
                      prompt_selection_goes P C T F context.user.name _ app
                        (await_selection context) both))
                    (λ entry chosen. accepts context entries entry both listed chosen)))

      other-Gives :
          (state : KeyboardAuthState)
          → is_selection state ≡ false
          → HasAcceptedUsers P C T F app.store
          → IsBacked P C T F (now ∷ past) (some state)
          → (respond P C T F state m text h app).app.store ≡ after
          → Gives P C T F (now ∷ past) (respond P C T F state m text h app)
      other-Gives state other users backed left =
          goes-Gives P C T F s
            (response_goes P C T F m text app after past h users s.backed state other backed left)

      pub dialogue-Gives :
          (state : KeyboardAuthState)
          → HasAcceptedUsers P C T F app.store
          → IsBacked P C T F (now ∷ past) (some state)
          → (respond P C T F state m text h app).app.store ≡ after
          → Gives P C T F (now ∷ past) (respond P C T F state m text h app)
      unfolding respond
      dialogue-Gives (await_selection context) users backed left = selection-Gives context backed
      dialogue-Gives (await_password u) users backed left =
          other-Gives (await_password u) refl users backed left
      dialogue-Gives (await_existing_totp u p) users backed left =
          other-Gives (await_existing_totp u p) refl users backed left
      dialogue-Gives (await_new_password c p) users backed left =
          other-Gives (await_new_password c p) refl users backed left
      dialogue-Gives (await_confirm_password c p n) users backed left =
          other-Gives (await_confirm_password c p n) refl users backed left
      dialogue-Gives (await_enrollment_totp c t) users backed left =
          other-Gives (await_enrollment_totp c t) refl users backed left
