-- ===== src/Client/Remote/Mirror.antt =====
-- client/client.go, transmitter/mux.go and transmitter/handlers.go: the client of a loopback is the
-- Transmitter behind it.
use go_ssf.Prelude.{none, some, ◌≡◌}
use go_ssf.Transmitter.Http.{Request, run_auth}
use go_ssf.Client.Remote.{
  Call, invoke, endpoint, IsSendable, IsAnswerable, seen_as, Agrees, Reaches, Loopback, remote,
}
use go_ssf.Client.Remote.Configs.{
  get_config-IsMirrored, list_config-IsMirrored, delete_config-IsMirrored, create_config-IsMirrored,
  update_config-IsMirrored,
}
use go_ssf.Client.Remote.Streams.{
  get_status-IsMirrored, update_status-IsMirrored, add_subject-IsMirrored,
  remove_subject-IsMirrored, verify-IsMirrored, poll_events-IsMirrored,
}

-- A client whose transport is the default mux of a Transmitter behaves as that Transmitter: for each of the
-- eleven calls, whatever the Transmitter and its state, the client's caller gets the value that the
-- Transmitter returns (a nil page as an empty one) or an error that matches, of all sentinels, exactly
-- the one that the Transmitter's error carries over the wire, and the Transmitter's state becomes what
-- the call itself makes it. The request must be authorized, its path reach the server unchanged, its stream
-- be named, a subject of a status request be valid JSON, and the bodies survive their JSON.
pub remote-IsMirrored :
    {Identifier S : Type 0} (x : Loopback Identifier S) (k : Call Identifier) (s : S)
    → ((r : Request) → run_auth x.lib (some x.auth) r ≡ none)
    → Reaches x.net x.base (endpoint k)
    → IsSendable x.read x.lib.codings k
    → IsAnswerable x.read x.lib.codings k (invoke x.transmitter k s).0
    → Agrees (seen_as k) (invoke (remote x) k s).0 (invoke x.transmitter k s).0
      × ((invoke (remote x) k s).1 ≡ (invoke x.transmitter k s).1)
remote-IsMirrored x (Call.get_config id) s allows reach sends answer =
    get_config-IsMirrored x allows id s reach sends answer
remote-IsMirrored x (Call.list_config token) s allows reach sends answer =
    list_config-IsMirrored x allows token s reach answer
remote-IsMirrored x (Call.delete_config id) s allows reach sends answer =
    delete_config-IsMirrored x allows id s reach sends
remote-IsMirrored x (Call.create_config cfg) s allows reach sends answer =
    create_config-IsMirrored x allows cfg s reach sends answer
remote-IsMirrored x (Call.update_config cfg) s allows reach sends answer =
    update_config-IsMirrored x allows cfg s reach sends answer
remote-IsMirrored x (Call.get_status id subject) s allows reach sends answer =
    get_status-IsMirrored x allows id subject s reach sends answer
remote-IsMirrored x (Call.update_status id req) s allows reach sends answer =
    update_status-IsMirrored x allows id req s reach sends answer
remote-IsMirrored x (Call.add_subject id req) s allows reach sends answer =
    add_subject-IsMirrored x allows id req s reach sends
remote-IsMirrored x (Call.remove_subject id req) s allows reach sends answer =
    remove_subject-IsMirrored x allows id req s reach sends
remote-IsMirrored x (Call.verify id req) s allows reach sends answer =
    verify-IsMirrored x allows id req s reach sends
remote-IsMirrored x (Call.poll_events id req) s allows reach sends answer =
    poll_events-IsMirrored x allows id req s reach sends answer
