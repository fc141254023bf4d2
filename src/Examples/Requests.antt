-- ===== src/Examples/Requests.antt =====
-- The theorems of the Loki client's requests and of the registry at concrete inputs.
use alertsnitch.Base.{message, ◌≡◌, ◌↔◌, true, false, none, some, [], ok, List, pos, ◌+◌, length}
use alertsnitch.Config.{AuthConfig, Config, default_batch_config}
use alertsnitch.Wal.Frame.{in_full}
use alertsnitch.Stream.{data_to_stream}
use alertsnitch.Timestamps.{Stream}
use alertsnitch.Server.{World, save_loki}
use alertsnitch.Transport.{Http, push_payload, error_of}
use alertsnitch.Transport.Sent.{Pushed}
use alertsnitch.Transport.Saved.{saved_by, save_loki_iff}
use alertsnitch.Client.{Client, NewIo, new_client}
use alertsnitch.Client.Started.{Starts, settled, new_client_iff}
use alertsnitch.Client.Saves.{SaveIo, CountsOr, save_client, save_client-CountsOr}
use alertsnitch.Batch.Enqueue.{neither, cancelled}
use alertsnitch.Examples.Data.{env, append_well, processor, group, zeros, converter, toy, no_files}

-- A Loki that answers with one status.
abbrev http : Http
http = record {
  marshal = λ streams. ok [];
  write = λ bytes. ok tt;
  close = λ bytes. ok bytes;
  join_path = λ a b. b;
  create = λ method uri. ok tt;
  send = λ r. ok (record { status = 204; read_all = λ n. ok [] });
  basic_auth = λ user password. "Basic dTpw";
  text = λ bytes. "";
  error_text = λ e. "";
  sprintf = λ f n s. f;
}

abbrev auth : AuthConfig
auth = record { tenant_id = "t"; basic_auth_user = "u"; basic_auth_password = "" }

abbrev world : World (Unit {0})
world = record { metrics = zeros; backend = tt }

save_loki_iff_example :
    let r =
      save_loki converter
        (λ streams. error_of (push_payload http auth streams))
        5
        7
        group
        []
        world in
    ((r.0 ≡ none) ↔ (
      (streams : List Stream) × (data_to_stream converter 7 group [] 5 ≡ ok streams)
      × Pushed http auth streams))
    × (r.1.metrics.alerts_saved group.receiver group.status
        ≡ world.metrics.alerts_saved group.receiver group.status
          + saved_by r.0 (length group.alerts))
save_loki_iff_example = save_loki_iff http auth converter 5 7 group [] world

abbrev config : Config
config = record {
  url = some (record { scheme = "https" });
  auth = auth;
  tls = record {
    insecure_skip_verify = false;
    ca_cert_path = "/ca.pem";
    client_cert_path = "";
    client_key_path = "";
  };
  batch = record default_batch_config { enabled = true };
  wal = record { enabled = true; dir = "/wal" };
  request_timeout = pos 0;
  allowed_labels = [];
  structured_metadata = false;
}

-- A start on a log that has to be made.
abbrev new_io : NewIo
new_io = record {
  not_exist = λ path. false;
  tls = record {
    read_file = λ path. ok [];
    append_certs = λ pem. true;
    load_key_pair = λ cert key. ok [];
  };
  codec = toy;
  open_io = record { made_dir = true; ckpt_readable = true; read = in_full; opened = true };
  disk = no_files;
  can_make_chan = λ n. true;
  can_make_slice = λ n. true;
  taken = 0;
  http = λ tls. http;
  metrics = zeros;
}

new_client_iff_example :
    ((c : Client) × (new_client new_io config ≡ ok c) × (c.cfg ≡ settled new_io config))
    ↔ Starts new_io config
new_client_iff_example = new_client_iff new_io config

-- A client with batches, whose caller goes away in the second select.
abbrev batched : World Client
batched = record {
  metrics = zeros;
  backend = record {
    cfg = config;
    tls = record { skip_verify = false; root_cas = none; certificate = none };
    allowed_labels = [];
    batch = some (record { queue = []; processor = processor });
  };
}

abbrev cut_short : SaveIo
cut_short = record {
  received_at = 5;
  now = 7;
  marshal_line = λ flat. ok "line";
  push = λ streams. none;
  env = env;
  append_io = append_well;
  first = neither;
  second = cancelled (message "canceled");
}

save_client-CountsOr_example :
    CountsOr "web" "firing" cut_short group batched (save_client cut_short group [] batched)
save_client-CountsOr_example = save_client-CountsOr "web" "firing" cut_short group [] batched
