-- ===== src/Tests/Remotes.antt =====
-- The gateway over the generated client and server, and a run of it.
use qa_sys.System.Requests.{HasTopic}
use qa_sys.Tests.Voting.{start-IsConsistent}
use qa_sys.Aes.{encrypt}
use qa_sys.Gateway.Auth.{authenticate}
use qa_sys.Users.{fetch_one}
use qa_sys.Gateway.Router.{api_router}
use qa_sys.Votes.Consistency.{IsConsistent}
use qa_sys.Rpc.{RpcResponse, Channel, Tonic, RpcRequest, used}
use qa_sys.Prelude.{
  Result, List, Option, ◌≡◌, [], err, String, ok, refl, ◌∷◌, some, none, subst, ap, ◌∙◌, str_eq,
  ◌⊎◌, false,
}
use qa_sys.Tests.Messages.{Message, Prost, toy_codecs}
use qa_sys.Tests.Gateways.{toy_panic, later, toy_framework, entered, vote_request}
use qa_sys.Tests.Worlds.{Store}
use qa_sys.World.{World}
use qa_sys.Users
use qa_sys.Service.Sessions.{user_login}
use qa_sys.Gateway.{Status, GatewayError, Principal}
use qa_sys.Gateway.Client.{Call}
use qa_sys.Service.{internal}
use qa_sys.Rpc.Reached.{
  Reached, refused, answered, lost, IsChannelTo, TonicLaws, IsRemote, methods-IsRemote,
}
use qa_sys.Rpc.Remote.{service_impl, remote-HasLanded}
use qa_sys.Rpc.Stub.{QaServiceClient, new_client, methods}
use qa_sys.Rpc.Server.{QaServiceServer, from_arc, serve_http}

abbrev Frame : Type 0
Frame = Result Status Message

abbrev invalid : Status
invalid = record { code = internal; message = "failed to decode Protobuf message" }

abbrev reply : Frame → RpcResponse Frame
reply body = record { headers = []; body = body }

module _ {A : Type 0} (p : Prost A) where
  abbrev of_option : Option A → Result Status A
  of_option none = err invalid
  of_option (some a) = ok a

  abbrev read : Frame → Result Status A
  read (err e) = err e
  read (ok m) = of_option (p.decode m)

  abbrev written : Result Status A → Frame
  written (err e) = err e
  written (ok a) = ok (p.encode a)

  read-written : (r : Result Status A) → read (written r) ≡ r
  read-written (err e) = refl
  read-written (ok a) = rw (p.back a)

module _ {S A B : Type 0} where
  abbrev handled : Prost B → Call S A B → Result Status A → S → RpcResponse Frame × S
  handled response method (err e) s = (reply (err e), s)
  handled response method (ok a) s = let o = method a s in (reply (written response o.0), o.1)

module _ {S B : Type 0} where
  abbrev received : Prost B → Result Status (RpcResponse Frame) × S → Result Status B × S
  received response (err e, s) = (err e, s)
  received response (ok r, s) = (read response r.body, s)

abbrev toy_tonic : {S : Type 0} → Tonic S Frame (List String) String Prost
toy_tonic = record {
  no_encodings = [];
  enable = λ es e. e ∷ es;
  empty_body = err invalid;
  client_unary = λ A B config request response channel path req s.
      received response (channel.send (record { path = path; body = ok (request.encode req) }) s);
  server_unary =
      λ A B config request response method r s. handled response method (read request r.body) s;
}

module _ {S A B : Type 0} (request : Prost A) (response : Prost B) (method : Call S A B) where
  same_answer :
      (s : S) (o : Result Status (RpcResponse Frame) × S) (req : A)
      → Reached (ok (reply (written response (method req s).0)), (method req s).1) s o
      → Reached (method req s) s (received response o)
  same_answer s o req (refused e h) = refused e (rw h)
  same_answer s o req (answered h) = answered (rw h (rw (read-written response (method req s).0)))
  same_answer s o req (lost e h) = lost e (rw h)

toy_tonic-TonicLaws : {S : Type 0} → TonicLaws (toy_tonic {S = S})
toy_tonic-TonicLaws {S = S} = record {
  unary = λ A B request response c d channel h path method connected arm req s.
      let r : RpcRequest Frame = record { path = path; body = ok (request.encode req) } in
      same_answer request response method s (channel.send r s) req (
        subst (λ (o : RpcResponse Frame × S). Reached (ok o.0, o.1) s (channel.send r s))
          (ap (λ (f : S → RpcResponse Frame × S). f s) (arm r refl)
            ∙ ap (λ (x : Result Status A). handled response method x s)
                (read-written request (ok req)))
          (connected.send r s));
}

abbrev toy_server : QaServiceServer (World Store) (List String)
toy_server = from_arc toy_tonic (service_impl toy_panic later)

-- A connection that loses nothing.
abbrev toy_channel : Channel (World Store) Frame
toy_channel = record {
  ready = λ s. (ok tt, s);
  send = λ r s. let o = serve_http toy_tonic toy_codecs toy_server r s in (ok o.0, o.1);
}

abbrev toy_client : QaServiceClient (World Store) Frame (List String)
toy_client = new_client toy_tonic toy_channel

toy_channel-IsChannelTo : IsChannelTo toy_channel (serve_http toy_tonic toy_codecs toy_server)
toy_channel-IsChannelTo = record { ready = λ s. refl; send = λ r s. answered refl }

methods-IsRemote_example : IsRemote (methods toy_tonic toy_codecs toy_client) toy_server.inner
methods-IsRemote_example =
    methods-IsRemote toy_tonic toy_tonic-TonicLaws toy_codecs toy_client toy_server
      toy_channel-IsChannelTo

abbrev arrived : World Store
arrived =
    (api_router toy_framework (used (methods toy_tonic toy_codecs toy_client)) false "r1"
      vote_request entered).1

abbrev let_in : Result GatewayError Principal
let_in =
    (authenticate (used (methods toy_tonic toy_codecs toy_client)) false "r1" vote_request
      entered).0

ready : IsConsistent entered.db
unfolding user_login fetch_one Users.get Users.set str_eq encrypt
ready = start-IsConsistent

remote-HasLanded_example :
    IsConsistent arrived.db
    × ((arrived.published ≡ entered.published)
        ⊎ ((p : Principal) × (let_in ≡ ok p)
            × HasTopic later entered.published p arrived.published))
remote-HasLanded_example =
    remote-HasLanded toy_tonic toy_tonic-TonicLaws toy_codecs toy_client toy_server
      toy_channel-IsChannelTo toy_panic later refl toy_framework false "r1" vote_request entered
      ready
