-- ===== src/Gateway/Login/Steps.antt =====
-- The same for the handler of each response (src/ssh/mod.rs).
use central_ssh.Prelude.{
  ℕ, by_result, by_option, by_test, ◌≡◌, refl, inl, inr, true, false, none, some, List, ◌∷◌, ok,
  Result-cases, Option-cases, arith, not,
}
use mathlib.Core.Path.{sym, subst, ◌∙◌}
use mathlib.Core.List.{Memᴰ}
use central_ssh.Prelude.Text.{Text, codes, trim, text_eq}
use central_ssh.Abuse.Types.{Platform}
use central_ssh.Auth.Crypto.{Crypto}
use central_ssh.Auth.Buckets.{Floats}
use central_ssh.Auth.Engine.{
  verify_password_constant_time, verify_password_and_optional_totp_constant_time, verify_totp_code,
  otpauth_url, hash_password,
}
use central_ssh.Auth.Passwords.{verify_password_iff, login_factors, is_code_of, second_factor}
use central_ssh.Config.Validate.{find_user}
use central_ssh.Config.Store.{Toml, ConfigStore, update_user_credentials}
use central_ssh.Config.Credentials.{update_user_credentials_secret}
use central_ssh.Gateway.Login.State.{
  PendingAuthContext, PasswordPolicyConfig, KeyboardAuthState, await_password, await_existing_totp,
  await_new_password, await_confirm_password, await_enrollment_totp, await_selection,
  GatewayHandler, Moment, AppState, Reply, success, keyboard_interactive, auth_attempt, auth_totp,
}
use central_ssh.Gateway.Login.Audit.{log_event, record_login_success}
use central_ssh.Gateway.Login.Responses.{
  should_prompt_existing_totp, build_pending_context, take_login_token, handle_password_response,
  handle_existing_totp_response,
}
use central_ssh.Gateway.Login.Enrollment.{
  handle_new_password_response, password_notice, handle_confirm_password_response,
  commit_pending_updates, finish_enrollment, repeat_enrollment, handle_enrollment_response,
}
use central_ssh.Gateway.Login.Enrolled.{commit_store, prompt_store}
use central_ssh.Gateway.Login.Dialogue.{respond}
use central_ssh.Gateway.Login.History.{
  Call, HasAcceptedUsers, PasswordGiven, enrolled, Authenticated,
}
use central_ssh.Gateway.Login.Progress.{
  is_selection, IsBacked, GoesOn, stays, moves, prompt_selection_goes, start_enrollment_goes,
  note_login_failure_goes, reject_login_goes, refuse_login_goes, advance_goes,
}
use central_ssh.Gateway.Login.Evidence.{no_secret, password_given, code_given}

module _ (P : Platform) (C : Crypto) (T : Toml) (F : Floats) where
  abbrev Calls : Type 0
  Calls = List (Call P C T F)

  module _ (m : Moment) (text : Text) (app : AppState P T F) (after : ConfigStore T P)
      (past : Calls) (h : GatewayHandler) where
    abbrev now : Call P C T F
    now = record { response = some (text, m.code_time); store = app.store; after = after }

    abbrev so_far : Calls
    so_far = now ∷ past

    -- A reply goes on if it leaves the configuration that the call is said to leave.
    record GoesOnTo (r : Reply P T F) : Type 0 where
      goes : r.app.store ≡ after → GoesOn P C T F so_far h r

    module _ (accepted : HasAcceptedUsers P C T F app.store)
        (b : IsBacked P C T F so_far h.keyboard_auth_state) where
      -- The log behind the attempt.
      abbrev attempted : Text → AppState P T F
      attempted username =
          log_event P T F auth_attempt (some username) none (some keyboard_interactive) success app

      password_response_goes :
          (username : Text)
          → GoesOn P C T F so_far h (handle_password_response P C T F m username text h app)
      unfolding handle_password_response
      password_response_goes username =
          by_test (GoesOn P C T F _ _)
            (should_prompt_existing_totp (find_user app.store.config.users username))
            (λ prompt.
              moves P C T F (await_existing_totp username text)
                (now, m.code_time, Memᴰ.head refl, refl))
            (λ without.
              by_option (GoesOn P C T F _ _) (find_user app.store.config.users username)
                (λ unknown. stays P C T F refl b)
                (λ u known.
                  by_result (GoesOn P C T F _ _)
                    (take_login_token P C T F m h username (attempted username)).0
                    (λ e bad. refuse_login_goes P C T F m _ username _ b)
                    (λ _ _.
                      by_result (GoesOn P C T F _ _)
                        (verify_password_constant_time C app.dummy_hash app.store.config.users
                          username text)
                        (λ e bad. refuse_login_goes P C T F m _ username _ b)
                        (λ user good.
                          let facts =
                            (verify_password_iff C app.store.servers app.dummy_hash
                                app.store.config.users username text user accepted).0
                              good in
                          advance_goes P C T F m (build_pending_context user none) _ _ b
                            (password_given P C T F m text app after past h accepted b now text
                              m.code_time username user (Memᴰ.head refl) refl facts.0 facts.1)
                            (λ keep has. absurd (
                              no_secret P C T F m text app after past h accepted b username user
                                without facts.0 keep has))))))

      existing_totp_response_goes :
          (username password : Text)
          → ((call : Call P C T F) × (at : ℕ) × Memᴰ call so_far
              × (call.response ≡ some (password, at)))
          → GoesOn P C T F so_far h
              (handle_existing_totp_response P C T F m username password text h app)
      unfolding handle_existing_totp_response
      existing_totp_response_goes username password (typed, at, typed_in, same) =
          by_result (GoesOn P C T F _ _)
            (take_login_token P C T F m h username (attempted username)).0
            (λ e bad. refuse_login_goes P C T F m _ username _ b)
            (λ _ _.
              by_result (GoesOn P C T F _ _)
                (verify_password_and_optional_totp_constant_time C app.dummy_hash
                  app.store.config.users username password (trim text) m.code_time)
                (λ e bad. reject_login_goes P C T F m (some username) _ b)
                (λ user good.
                  let facts =
                    login_factors C app.store.servers app.dummy_hash app.store.config.users username
                      password (trim text) m.code_time user accepted good in
                  advance_goes P C T F m (build_pending_context user none) _ _ b
                    (password_given P C T F m text app after past h accepted b typed password at
                      username user typed_in same facts.0 facts.1)
                    (λ keep has.
                      code_given P C T F m text app after past h accepted b username user facts.0
                        facts.2 has)))

      new_password_response_goes :
          (context : PendingAuthContext) (policy : PasswordPolicyConfig)
          → PasswordGiven P C T F so_far context.user.name
          → GoesOn P C T F so_far h (handle_new_password_response P C T F context policy text h app)
      unfolding handle_new_password_response
      new_password_response_goes context policy given =
          moves P C T F (await_confirm_password context policy text) given

      confirm_password_response_goes :
          (context : PendingAuthContext) (policy : PasswordPolicyConfig) (candidate : Text)
          → PasswordGiven P C T F so_far context.user.name
          → GoesOn P C T F so_far h
              (handle_confirm_password_response P C T F m context policy candidate text h app)
      unfolding handle_confirm_password_response
      confirm_password_response_goes context policy candidate given =
          by_test (GoesOn P C T F _ _) (not (text_eq candidate text))
            (λ _. moves P C T F (await_new_password context policy) given)
            (λ _.
              by_option (GoesOn P C T F _ _) (password_notice P C T F policy context.user candidate)
                (λ _.
                  by_result (GoesOn P C T F _ _) (hash_password C m.salt candidate)
                    (λ e bad. stays P C T F refl b)
                    (λ hash good.
                      start_enrollment_goes P C T F m
                        (record context { new_password_hash = some hash }) app b given))
                (λ notice _. moves P C T F (await_new_password context policy) given))

      -- What goes before a commit.
      abbrev behind_code : Text → AppState P T F → AppState P T F
      behind_code username app' =
          record_login_success P T F m h (
            log_event P T F auth_totp (some username) none (some keyboard_interactive) success app')

      -- What a commit that succeeds returns, and did.
      commit_done :
          (context : PendingAuthContext) (secret : Text) (app' : AppState P T F)
          {changed : PendingAuthContext}
          → (commit_pending_updates P C T F m context secret app').0 ≡ ok changed
          → (changed.user.name ≡ context.user.name)
            × ((update_user_credentials T P m.config_write context.user.name
                  context.new_password_hash
                  (some secret)
                  (some false)
                  app'.store).0
                ≡ ok tt)
      unfolding commit_pending_updates
      commit_done context secret app' {changed} done =
          elim (Result-cases
            (update_user_credentials T P m.config_write context.user.name context.new_password_hash
              (some secret) (some false) app'.store).0) [
                | inr (e, bad) ↦ absurd (ground (arith, bad, done))
                | inl (u, good) ↦ elim (Option-cases context.new_password_hash) [
                  | inl old ↦ (ground (arith, good, old, done), ground (arith, good))
                  | inr (hash, new) ↦ (ground (arith, good, new, done), ground (arith, good))
                ]
              ]

      finish_enrollment_goes :
          (context : PendingAuthContext) (secret : Text) (app' : AppState P T F)
          → PasswordGiven P C T F so_far context.user.name
          → is_code_of C (trim text) secret m.code_time ≡ true
          → GoesOnTo (finish_enrollment P C T F m context secret h app')
      unfolding finish_enrollment
      finish_enrollment_goes context secret app' given code =
          by_result (GoesOnTo)
            (commit_pending_updates P C T F m context secret (behind_code context.user.name app')).0
            (λ e bad. record { goes = λ left. stays P C T F refl b })
            (λ changed done. record {
              goes = λ left.
                  let behind = behind_code context.user.name app' in
                  let facts = commit_done context secret behind done in
                  let (user, found, has) =
                    update_user_credentials_secret T P m.config_write context.user.name
                      context.new_password_hash secret (some false) behind.store facts.1 in
                  let same =
                    sym left
                    ∙ (prompt_store P C T F m context secret behind context.user.name none _ _
                        ∙ commit_store P C T F m context secret behind behind refl) in
                  prompt_selection_goes P C T F context.user.name none _ (await_selection changed) (
                    subst (Authenticated P C T F so_far) (sym facts.0) (record {
                      password = given;
                      code = record {
                        typed = now;
                        typed_in = Memᴰ.head refl;
                        code = text;
                        at = m.code_time;
                        response = refl;
                        secret = secret;
                        right = code;
                        origin =
                            enrolled now (Memᴰ.head refl) user
                              (subst
                                (λ (s : ConfigStore T P).
                                  find_user s.config.users context.user.name ≡ some user)
                                (sym same) found)
                              has;
                      };
                    }));
            })

      repeat_enrollment_goes :
          (context : PendingAuthContext) (secret : Text) (app' : AppState P T F)
          → PasswordGiven P C T F so_far context.user.name
          → GoesOn P C T F so_far h (repeat_enrollment P C T F context secret h app')
      unfolding repeat_enrollment
      repeat_enrollment_goes context secret app' given =
          by_result (GoesOn P C T F _ _)
            (otpauth_url C (codes "CentralSSH") context.user.name secret)
            (λ e bad. stays P C T F refl b)
            (λ url good. moves P C T F (await_enrollment_totp context secret) given)

      enrollment_response_goes :
          (context : PendingAuthContext) (secret : Text)
          → PasswordGiven P C T F so_far context.user.name
          → GoesOnTo (handle_enrollment_response P C T F m context secret text h app)
      unfolding handle_enrollment_response
      enrollment_response_goes context secret given =
          let username = context.user.name in
          let taken : PendingAuthContext = record context { login_password = none } in
          by_result (GoesOnTo) (verify_totp_code C secret (trim text) m.code_time)
            (λ e bad. record {
              goes = λ _.
                  note_login_failure_goes P C T F m (some username)
                    (repeat_enrollment P C T F context secret h) _ b
                    (λ app'. repeat_enrollment_goes context secret app' given);
            })
            (λ u good.
              let code = second_factor C secret (trim text) m.code_time good in
              by_option (GoesOnTo) context.login_password
                (λ _. finish_enrollment_goes taken secret app given code)
                (λ login_password _.
                  by_result (GoesOnTo) (take_login_token P C T F m h username app).0
                    (λ e bad. record { goes = λ _. refuse_login_goes P C T F m _ username _ b })
                    (λ _ _.
                      by_result (GoesOnTo)
                        (verify_password_constant_time C app.dummy_hash app.store.config.users
                          username login_password)
                        (λ e bad. record { goes = λ _. refuse_login_goes P C T F m _ username _ b })
                        (λ v right. finish_enrollment_goes taken secret _ given code))))

      -- Every response but that of the selection.
      pub response_goes :
          (s : KeyboardAuthState)
          → is_selection s ≡ false
          → IsBacked P C T F so_far (some s)
          → (respond P C T F s m text h app).app.store ≡ after
          → GoesOn P C T F so_far h (respond P C T F s m text h app)
      unfolding respond
      response_goes (await_password username) other backed left = password_response_goes username
      response_goes (await_existing_totp username password) other backed left =
          existing_totp_response_goes username password backed
      response_goes (await_new_password context policy) other backed left =
          new_password_response_goes context policy backed
      response_goes (await_confirm_password context policy candidate) other backed left =
          confirm_password_response_goes context policy candidate backed
      response_goes (await_enrollment_totp context secret) other backed left =
          (enrollment_response_goes context secret backed).goes left
      response_goes (await_selection context) other backed left = absurd (ground arith)
