-- ===== src/Gateway/Requests/Clean.antt =====
-- Connections that have relayed only permitted calls, and the parts of the handlers of src/ssh/mod.rs.
use central_ssh.Prelude.{
  ℕ, ◌≡◌, refl, Bool, true, some, List, [], ◌∷◌, ◌++◌, Result, all, ok, err, arith,
}
use central_ssh.Prelude.Text.{Text, text_eq_iff}
use central_ssh.Error.{Error}
use central_ssh.Gateway.Login.State.{SelectedTarget, GatewayHandler}
use central_ssh.Gateway.Requests.Session.{
  channel_eq_class, SessionChannelState, ClientMessage, DenialKind, ProxyCall, abort, Gateway, send,
  relay, change_channel, log_policy_denial, deny_protocol_and_disconnect, fail_channel_request,
  answer_or_fail, answer_or_abort, relay_or_abort,
}
use central_ssh.Gateway.Requests.Step.{is_permitted, is_relayable}

all-append {ℓ} :
    {A : Type ℓ} (p : A → Bool) (xs : List A) (x : A)
    → all p xs ≡ true
    → p x ≡ true
    → all p (xs ++ x ∷ []) ≡ true
all-append p [] x hs h = ground (arith, h)
all-append p (y ∷ ys) x hs h = ground (arith, all-append p ys x, h)

-- The connection is the one given, and all that has been relayed may be.
pub record IsClean (h : GatewayHandler) (g : Gateway) : Type 0 where
  pub same : g.handler ≡ h
  pub clean : all (is_relayable h) g.relayed ≡ true

relayable :
    (h : GatewayHandler) (target : SelectedTarget) (call : ProxyCall)
    → h.proxy_session ≡ some target
    → is_permitted h.active_policy call ≡ true
    → is_relayable h (target, call) ≡ true
relayable h target call reached permitted = ground (
  arith,
  reached,
  text_eq_iff target.name target.name,
  text_eq_iff target.host target.host,
  permitted,
)

module _ {h : GatewayHandler} where
  pub send-IsClean : (m : ClientMessage) (g : Gateway) → IsClean h g → IsClean h (send m g)
  unfolding send
  send-IsClean m g c = record { same = c.same; clean = c.clean }

  pub change-IsClean :
      (channel : ℕ) (f : SessionChannelState → SessionChannelState) (g : Gateway)
      → IsClean h g
      → IsClean h (change_channel channel f g)
  unfolding change_channel
  change-IsClean channel f g c = record { same = c.same; clean = c.clean }

  pub denial-IsClean :
      (kind : DenialKind) (g : Gateway) → IsClean h g → IsClean h (log_policy_denial kind g)
  unfolding log_policy_denial
  denial-IsClean kind g c = record { same = c.same; clean = c.clean }

  pub deny-IsClean :
      (channel : ℕ) (protocol : Text) (g : Gateway)
      → IsClean h g
      → IsClean h (deny_protocol_and_disconnect channel protocol g)
  unfolding deny_protocol_and_disconnect
  deny-IsClean channel protocol g c =
      send-IsClean _ _ (send-IsClean _ _ (send-IsClean _ _ (send-IsClean _ _ c)))

  module _ (target : SelectedTarget) (reached : h.proxy_session ≡ some target) where
    pub relay-IsClean :
        (call : ProxyCall) (g : Gateway)
        → is_permitted h.active_policy call ≡ true
        → IsClean h g
        → IsClean h (relay target call g)
    unfolding relay
    relay-IsClean call g permitted c = record {
      same = c.same;
      clean =
          all-append (is_relayable h) g.relayed (target, call) c.clean
            (relayable h target call reached permitted);
    }

    pub fail-IsClean :
        (channel : ℕ) (call : ProxyCall) (outcome : Result Error ℕ) (g : Gateway)
        → is_permitted h.active_policy call ≡ true
        → IsClean h g
        → IsClean h (answer_or_fail channel target call outcome g)
    unfolding answer_or_fail fail_channel_request
    fail-IsClean channel call (ok _) g permitted c =
        send-IsClean _ _ (relay-IsClean call g permitted c)
    fail-IsClean channel call (err _) g permitted c =
        send-IsClean _ _ (send-IsClean _ _ (relay-IsClean call g permitted c))

    pub abort-IsClean :
        (channel : ℕ) (call : ProxyCall) (outcome : Result Error ℕ) (g : Gateway)
        → is_permitted h.active_policy call ≡ true
        → IsClean h g
        → IsClean h (answer_or_abort channel target call outcome g)
    unfolding answer_or_abort
    abort-IsClean channel call (ok _) g permitted c =
        send-IsClean _ _ (relay-IsClean call g permitted c)
    abort-IsClean channel call (err _) g permitted c =
        relay-IsClean abort _ refl (send-IsClean _ _ (relay-IsClean call g permitted c))

    pub pass-IsClean :
        (call : ProxyCall) (outcome : Result Error ℕ) (g : Gateway)
        → is_permitted h.active_policy call ≡ true
        → IsClean h g
        → IsClean h (relay_or_abort target call outcome g)
    unfolding relay_or_abort
    pass-IsClean call (ok _) g permitted c = relay-IsClean call g permitted c
    pass-IsClean call (err _) g permitted c =
        relay-IsClean abort _ refl (relay-IsClean call g permitted c)
