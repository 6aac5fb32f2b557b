-- ===== src/Com/Rpc/Exchange.antt =====
-- src/ara/com/someip/rpc: a request of rpc_client.cpp, its way through rpc_server.cpp, and back.
use Prim.Native.Nat.{bit_or}
use adaptive_autosar.Prelude.{
  ℕ, suc, ◌+◌, ◌*◌, ◌-◌, ◌>>=◌, ◌%◌, ◌^◌, ◌<◌, ◌≡◌, refl, ap, ◌∙◌, some, List, [], ◌∷◌, Result, ok,
  if◌then◌else◌, ◌==◌, ==_iff, arith, length, Bool-cases, inl, inr, find, assign, find-assign_if,
  bit_or_shifted,
}
use adaptive_autosar.Com.Message
use adaptive_autosar.Com.Message.{SomeIpMessage, increment_session_id, new_message, session_id_max}
use adaptive_autosar.Com.Message.Header.{FitsHeader}
use adaptive_autosar.Com.Rpc.Message.{SomeIpRpcMessage, new_request, message_payload}
use adaptive_autosar.Com.Rpc.Server.{RpcServer, try_invoke_handler}
use adaptive_autosar.Com.Rpc.Reply.{outcome, reply, try_invoke_handler-reply}
use adaptive_autosar.Com.Rpc.Client.{
  RpcClient, message_id_of, session_or_first, new_client, call_of, ignore_corrupted, invoke_handler,
  session_of, send,
}

unfoldable pub next_session : ℕ → ℕ
next_session session = if session == session_id_max then 1 else (session + 1) % 2 ^ 16

increment-next_session :
    (m : SomeIpMessage) → (increment_session_id m).0.session_id ≡ next_session m.session_id
unfolding increment_session_id next_session
increment-next_session m = ground arith

module _ {H : Type 0} where
  -- The request that a client sends.
  abbrev pub request_of : RpcClient H → ℕ → ℕ → ℕ → List ℕ → SomeIpRpcMessage
  request_of c service_id method_id client_id rpc_payload = record {
    header = record {
      message_id = message_id_of service_id method_id;
      client_id = client_id;
      session_id = session_of c (message_id_of service_id method_id);
      protocol_version = c.protocol_version;
      interface_version = c.interface_version;
      message_type = Message.MessageType.request;
      return_code = Message.ReturnCode.e_ok;
    };
    rpc_payload = rpc_payload;
  }

  abbrev pub sent_by : RpcClient H → ℕ → ℕ → RpcClient H
  sent_by c service_id method_id = record c {
    session_ids =
        assign (message_id_of service_id method_id)
          (next_session (session_of c (message_id_of service_id method_id))) c.session_ids;
  }

  pub send_lem :
      (c : RpcClient H) (service_id method_id client_id : ℕ) (rpc_payload : List ℕ)
      → send c service_id method_id client_id rpc_payload
        ≡ ok (
          sent_by c service_id method_id,
          message_payload (request_of c service_id method_id client_id rpc_payload),
        )
  unfolding send new_request new_message
  send_lem c service_id method_id client_id rpc_payload =
      let request = request_of c service_id method_id client_id rpc_payload in
      ap
        (λ session. ok (
          record c {
            session_ids = assign (message_id_of service_id method_id) session c.session_ids;
          },
          message_payload request,
        ))
        (increment-next_session request.header)

pub record Call : Type 0 where
  pub service_id : ℕ
  pub method_id : ℕ
  pub client_id : ℕ
  pub rpc_payload : List ℕ

message_id_of-lt :
    (service_id method_id : ℕ)
    → service_id < 2 ^ 16
    → method_id < 2 ^ 16
    → message_id_of service_id method_id < 2 ^ 32
unfolding message_id_of
message_id_of-lt service_id method_id hs hm =
    let whole : service_id * 2 ^ 16 % 2 ^ 32 ≡ service_id * 2 ^ 16 = omega arith in
    omega (arith, ap (λ x. bit_or x method_id) whole, bit_or_shifted 16 service_id method_id hm)

-- The calls of one message identifier, and the session after so many requests.
abbrev pub count_calls : ℕ → List Call → ℕ
count_calls id [] = 0
count_calls id (call ∷ calls) =
    (if message_id_of call.service_id call.method_id == id then 1 else 0) + count_calls id calls

abbrev pub session_after : ℕ → ℕ
session_after n = n % (2 ^ 16 - 1) + 1

next_session-after : (n : ℕ) → next_session (session_after n) ≡ session_after (suc n)
unfolding next_session
next_session-after n = ground arith

module _ {H : Type 0} where
  abbrev pub send_all : RpcClient H → List Call → Result (RpcClient H)
  send_all c [] = ok c
  send_all c (call ∷ calls) = do
    (after, bytes) ← send c call.service_id call.method_id call.client_id call.rpc_payload
    send_all after calls

  session_of-sent_by :
      (c : RpcClient H) (service_id method_id id : ℕ)
      → session_of (sent_by c service_id method_id) id ≡ (
          if message_id_of service_id method_id == id
          then next_session (session_of c id)
          else session_of c id)
  unfolding session_of session_or_first
  session_of-sent_by c service_id method_id id =
      let key = message_id_of service_id method_id in
      ap session_or_first (find-assign_if key id (next_session (session_of c key)) c.session_ids)
      ∙ elim (Bool-cases (key == id)) [
        | inl same ↦ rw same (ap (λ k. next_session (session_of c k)) ((==_iff key id).0 same))
        | inr other ↦ rw other refl
      ]

  send_all-session :
      (calls : List Call) (c : RpcClient H) (id n : ℕ)
      → session_of c id ≡ session_after n
      → (d : RpcClient H) × (send_all c calls ≡ ok d)
        × (session_of d id ≡ session_after (count_calls id calls + n))
  send_all-session [] c id n h = (c, refl, h ∙ ap session_after (omega arith))
  send_all-session (call ∷ calls) c id n h =
      let key = message_id_of call.service_id call.method_id in
      let after = sent_by c call.service_id call.method_id in
      let count : ℕ = if key == id then 1 else 0 in
      let now : session_of after id ≡ session_after (count + n) =
        session_of-sent_by c call.service_id call.method_id id ∙ elim (Bool-cases (key == id)) [
          | inl same ↦
              rw same (ap next_session h ∙ (next_session-after n ∙ ap session_after (omega arith)))
          | inr other ↦ rw other (h ∙ ap session_after (omega arith))
        ] in
      let (d, sent, last) = send_all-session calls after id (count + n) now in
      (
        d,
        rw (send_lem c call.service_id call.method_id call.client_id call.rpc_payload) sent,
        last ∙ ap session_after (omega arith),
      )

  -- After any requests that a new client sent, none of which throws, the next request for a service
  -- and method carries as its session identifier the number of those for this service and method,
  -- modulo 65535, and one.
  pub send_all-consecutive :
      (calls : List Call) (protocol interface service_id method_id client_id : ℕ)
      (rpc_payload : List ℕ)
      → (d : RpcClient H) × (e : RpcClient H) × (send_all (new_client protocol interface) calls
          ≡ ok d)
        × (send d service_id method_id client_id rpc_payload
            ≡ ok (e, message_payload (request_of d service_id method_id client_id rpc_payload)))
        × (session_of d (message_id_of service_id method_id)
            ≡ count_calls (message_id_of service_id method_id) calls % (2 ^ 16 - 1) + 1)
  unfolding new_client session_of session_or_first find
  send_all-consecutive calls protocol interface service_id method_id client_id rpc_payload =
      let id = message_id_of service_id method_id in
      let (d, sent, last) = send_all-session calls (new_client protocol interface) id 0 refl in
      (
        d,
        sent_by d service_id method_id,
        sent,
        send_lem d service_id method_id client_id rpc_payload,
        last ∙ ap session_after (omega arith),
      )

  -- A request that a client sends, with numbers and lengths that fit, is answered by the server,
  -- and the answer calls the handler that the client has for the service and method, with the reply
  -- to that request.
  pub send-invoke_handler :
      (c : RpcClient H) (s : RpcServer) (service_id method_id client_id : ℕ) (rpc_payload : List ℕ)
      (handler : H)
      → service_id < 2 ^ 16
      → method_id < 2 ^ 16
      → client_id < 2 ^ 16
      → session_of c (message_id_of service_id method_id) < 2 ^ 16
      → 8 + length rpc_payload < 2 ^ 32
      → 8 + length (outcome s (request_of c service_id method_id client_id rpc_payload)).1 < 2 ^ 32
      → find (message_id_of service_id method_id) c.handlers ≡ some handler
      → (d : RpcClient H) × (bytes : List ℕ) × (response : List ℕ) × (send c service_id method_id
            client_id rpc_payload
          ≡ ok (d, bytes))
        × (try_invoke_handler s bytes ≡ ok (some response))
        × (invoke_handler d response
            ≡ ok
                (some (handler, reply s (request_of c service_id method_id client_id rpc_payload))))
  unfolding invoke_handler reply call_of
  send-invoke_handler c s service_id method_id client_id rpc_payload handler hs hm hc session small
        reply_small found =
      let request = request_of c service_id method_id client_id rpc_payload in
      let fits : FitsHeader request.header = record {
        id_fits = message_id_of-lt service_id method_id hs hm;
        client_fits = hc;
        session_fits = session;
      } in
      let (replied, read) = try_invoke_handler-reply s request fits small reply_small in
      (
        sent_by c service_id method_id,
        message_payload request,
        message_payload (reply s request),
        send_lem c service_id method_id client_id rpc_payload,
        replied,
        rw (read, ignore_corrupted, found) refl,
      )
