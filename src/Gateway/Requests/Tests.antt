-- ===== src/Gateway/Requests/Tests.antt =====
-- The theorems on the requests of a session (src/ssh/mod.rs) at concrete requests.
use central_ssh.Prelude.{
  ℕ, ◌≡◌, refl, true, false, some, List, [], ◌∷◌, Result, ok, err, all, length,
}
use central_ssh.Prelude.Text.{starts_with, trim, text_eq, split, len, codes}
use central_ssh.Error.{Error, io}
use central_ssh.Abuse.Types.{v4}
use central_ssh.Abuse.Tracker.{missing}
use central_ssh.Abuse.Example.{platform, settings}
use central_ssh.Auth.Example.{floats}
use central_ssh.Config.Types.{EffectiveAuthorizationPolicy}
use central_ssh.Config.Example.{toml, store}
use central_ssh.Gateway.Login.State.{SelectedTarget, new_client, AppState}
use central_ssh.Gateway.Requests.Session.{
  channel_eq_class, ChannelPtyState, SessionChannelState, new_channel, exec, shell, Gateway,
}
use central_ssh.Gateway.Requests.Step.{
  Request, ask_session, ask_exec, ask_subsystem, ask_direct_tcpip, handle_requests, is_relayable,
}
use central_ssh.Gateway.Requests.Policy.{handle_requests-IsClean}

abbrev git : SelectedTarget
git = record { name = codes "git"; host = codes "git.example.org" }

abbrev old_target : SelectedTarget
old_target = record { name = codes "db"; host = codes "db.example.org" }

abbrev strict : EffectiveAuthorizationPolicy
strict = record {
  allow_local_forwarding = false;
  allow_remote_forwarding = false;
  allow_sftp = false;
  allow_scp = false;
}

abbrev channel : SessionChannelState
channel = record new_channel { request = exec (some (codes "uptime")) }

abbrev gateway : Gateway
gateway = record {
  handler = record (new_client (some (v4 9))) {
    authenticated_username = some (codes "bob");
    pending_target = some old_target;
    active_policy = some strict;
    proxy_session = some old_target;
  };
  channels = (1, channel) ∷ [];
  relayed = [];
  sent = [];
  denials = [];
}

-- A command that is allowed, and a copy, a file transfer and a tunnel that are not.
abbrev requests : List (Request × Result Error ℕ)
requests =
    (ask_session 1, ok 0)
    ∷ ((ask_exec 1 (some (codes "uptime")), ok 0)
        ∷ ((ask_exec 1 (some (codes "scp -t /srv")), ok 0)
            ∷ ((ask_subsystem 1 (codes "sftp"), ok 0)
                ∷ ((ask_direct_tcpip 2 (codes "localhost") 5432, err io) ∷ []))))

handle_requests-IsClean_example :
    ((handle_requests requests gateway).handler ≡ gateway.handler)
    × (all (is_relayable gateway.handler) (handle_requests requests gateway).relayed ≡ true)
handle_requests-IsClean_example = handle_requests-IsClean requests gateway refl

two_relayed : length (handle_requests requests gateway).relayed ≡ 2
unfolding handle_requests trim text_eq split starts_with len
two_relayed = refl

abbrev app : AppState platform toml floats
app = record {
  store = store;
  dummy_hash = codes "$argon2id$dummy";
  limits = record { rate_limits = []; ip_rate_limits = [] };
  abuse = record { settings = settings; core = []; file = missing; audit = [] };
  audit = [];
}

-- The terminal of the shell that ended.
abbrev xterm : ChannelPtyState
xterm = record {
  term = codes "xterm";
  col_width = 80;
  row_height = 24;
  pix_width = 0;
  pix_height = 0;
  terminal_modes = [];
}

abbrev ended_shell : SessionChannelState
ended_shell = record new_channel { pty = some xterm; request = shell; menu_active = true }

abbrev in_menu : Gateway
in_menu = record gateway { channels = (1, ended_shell) ∷ [] }
