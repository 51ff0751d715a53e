-- ===== src/Ipc/Tests.antt =====
-- Runs of the endpoints, and the theorems at concrete ones.
use argusos_uefi_v.Base.{
  ℕ, ◌≡◌, ◌≢◌, ◌⊎◌, inl, inr, refl, none, some, List, [], ◌∷◌, true, false, arith, take, drop,
  find_slot,
}
use argusos_uefi_v.Ipc.{
  Endpoints, Received, ipc_init, ipc_endpoint_create, ipc_endpoint_destroy, ipc_send, ipc_receive,
  ipc_pending, resolve_endpoint, make_endpoint, copy_bytes,
}
use argusos_uefi_v.Ipc.SelfTest.{ipc_self_test}
use argusos_uefi_v.Ipc.Mailbox.{mailbox, IsValid}
use argusos_uefi_v.Ipc.Lifetime.{init_lem, create-IsValid, create_lem, destroy_lem}
use argusos_uefi_v.Ipc.Send.{send-IsValid, send_delivers, send_refuses}
use argusos_uefi_v.Ipc.Receive.{receive-IsValid, receive_delivers, receive_refuses}

ipc_self_test_passes : ipc_self_test ≡ true
unfolding ipc_self_test ipc_init ipc_endpoint_create ipc_endpoint_destroy ipc_send ipc_receive
    ipc_pending resolve_endpoint make_endpoint copy_bytes find_slot
ipc_self_test_passes = refl

-- One endpoint of process 41, and then a message in it.
abbrev opened : Endpoints
opened = (ipc_endpoint_create ipc_init 41).0

abbrev inbox : ℕ
inbox = (ipc_endpoint_create ipc_init 41).1

abbrev hello : List ℕ
hello = 0x41 ∷ 0x52 ∷ 0x47 ∷ []

abbrev posted : Endpoints
posted = (ipc_send opened inbox 17 hello 3).0

inbox-ne-zero : inbox ≢ 0
unfolding ipc_init ipc_endpoint_create find_slot make_endpoint
inbox-ne-zero = omega arith

opened-IsValid : IsValid opened
opened-IsValid = create-IsValid ipc_init 41 init_lem.0

mailbox-opened : mailbox opened inbox ≡ some (record { owner = 41; queue = [] })
mailbox-opened = (create_lem ipc_init 41 init_lem.0 inbox-ne-zero).1

posted-IsValid : IsValid posted
posted-IsValid = send-IsValid opened inbox 17 hello 3 opened-IsValid

mailbox-posted : mailbox posted inbox ≡ some (record { owner = 41; queue = (17, hello) ∷ [] })
mailbox-posted =
    (send_delivers opened inbox 17 hello 3 (record { owner = 41; queue = [] }) opened-IsValid
      mailbox-opened (omega arith) (omega arith) (omega arith) (omega arith) (omega arith)).1

create-IsValid_example : IsValid (ipc_endpoint_create opened 42).0
create-IsValid_example = create-IsValid opened 42 opened-IsValid

create_lem_example :
    (mailbox ipc_init inbox ≡ none)
    × (mailbox opened inbox ≡ some (record { owner = 41; queue = [] }))
    × ((other : ℕ) → other ≢ inbox → mailbox opened other ≡ mailbox ipc_init other)
create_lem_example = create_lem ipc_init 41 init_lem.0 inbox-ne-zero

destroy_lem_example :
    let (es', done) = ipc_endpoint_destroy posted inbox in
    IsValid es'
    × (mailbox es' inbox ≡ none)
    × (((done ≡ true) × (mailbox posted inbox ≢ none))
        ⊎ ((done ≡ false) × (mailbox posted inbox ≡ none) × (es' ≡ posted)))
    × ((other : ℕ) → other ≢ inbox → mailbox es' other ≡ mailbox posted other)
destroy_lem_example = destroy_lem posted inbox posted-IsValid

send_delivers_example :
    ((ipc_send opened inbox 17 hello 3).1 ≡ true)
    × (mailbox posted inbox ≡ some (record { owner = 41; queue = (17, hello) ∷ [] }))
send_delivers_example =
    send_delivers opened inbox 17 hello 3 (record { owner = 41; queue = [] }) opened-IsValid
      mailbox-opened (omega arith) (omega arith) (omega arith) (omega arith) (omega arith)

send_refuses_example : ipc_send opened inbox 0 hello 3 ≡ (opened, false)
send_refuses_example = send_refuses opened inbox 0 hello 3 opened-IsValid (inr (inl refl))

receive-IsValid_example : IsValid (ipc_receive posted inbox 41 (0 ∷ 0 ∷ 0 ∷ []) 3).0
receive-IsValid_example = receive-IsValid posted inbox 41 (0 ∷ 0 ∷ 0 ∷ []) 3 posted-IsValid

receive_delivers_example :
    let (es', got) = ipc_receive posted inbox 41 (0 ∷ 0 ∷ 0 ∷ 9 ∷ []) 4 in
    (r : Received) × (got ≡ some r)
    × (r.sender_pid ≡ 17)
    × (r.length ≡ 3)
    × (take r.length r.buffer ≡ hello)
    × (drop r.length r.buffer ≡ drop r.length (0 ∷ 0 ∷ 0 ∷ 9 ∷ []))
    × (mailbox es' inbox ≡ some (record { owner = 41; queue = [] }))
receive_delivers_example =
    receive_delivers posted inbox 41 (0 ∷ 0 ∷ 0 ∷ 9 ∷ []) 4
      (record { owner = 41; queue = (17, hello) ∷ [] }) (17, hello) [] posted-IsValid mailbox-posted
      refl refl (omega arith) (omega arith)

receive_refuses_example : ipc_receive posted inbox 42 (0 ∷ 0 ∷ 0 ∷ []) 3 ≡ (posted, none)
receive_refuses_example =
    receive_refuses posted inbox 42 (0 ∷ 0 ∷ 0 ∷ []) 3 posted-IsValid
      (inr (record { owner = 41; queue = (17, hello) ∷ [] }, mailbox-posted, inl (omega arith)))
