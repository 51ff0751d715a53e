-- ===== src/Ipc/SelfTest.antt =====
-- src/ipc.c `ipc_self_test`, which the kernel runs when it starts.
use argusos_uefi_v.Base.{
  ℕ, ◌==◌, Bool, true, false, not, ◌&&◌, Option, none, some, List, [], ◌∷◌, get_or,
}
use argusos_uefi_v.Ipc.{
  Endpoints, Received, ipc_init, ipc_endpoint_create, ipc_endpoint_destroy, ipc_send, ipc_receive,
  ipc_pending,
}

abbrev refused : Option Received → Bool
refused none = true
refused (some r) = false

-- What the test asks of the message that comes back.
abbrev matches_sent : Option Received → List ℕ → Bool
matches_sent none sent = false
matches_sent (some r) sent =
    r.length == 3
    && r.sender_pid == 17
    && get_or r.buffer 0 0 == get_or sent 0 0
    && get_or r.buffer 1 0 == get_or sent 1 0
    && get_or r.buffer 2 0 == get_or sent 2 0

-- The end of the test: the queue is drained, and the handle dies with its endpoint.
unfoldable pub destroy_test : Endpoints → ℕ → List ℕ → Bool
destroy_test es endpoint sent =
    let (es', done) = ipc_endpoint_destroy es endpoint in
    ipc_pending es endpoint 41 == 0 && done && not ((ipc_send es' endpoint 17 sent 3).1)

unfoldable pub receive_test : Endpoints → ℕ → List ℕ → List ℕ → Bool
unfolding destroy_test
receive_test es endpoint sent received =
    let (after_stranger, stranger) = ipc_receive es endpoint 42 received 3 in
    let (after_small, small) = ipc_receive after_stranger endpoint 41 received 2 in
    let (es', got) = ipc_receive after_small endpoint 41 received 3 in
    refused stranger
    && refused small
    && ipc_pending after_small endpoint 41 == 1
    && matches_sent got sent
    && destroy_test es' endpoint sent

unfoldable pub ipc_self_test : Bool
unfolding receive_test
ipc_self_test =
    let (es, endpoint) = ipc_endpoint_create ipc_init 41 in
    let sent = 0x41 ∷ 0x52 ∷ 0x47 ∷ [] in
    let received = 0 ∷ 0 ∷ 0 ∷ [] in
    let (es', accepted) = ipc_send es endpoint 17 sent 3 in
    not (endpoint == 0)
    && accepted
    && ipc_pending es' endpoint 41 == 1
    && receive_test es' endpoint sent received
