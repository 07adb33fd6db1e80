-- ===== src/WsConnection/Examples.antt =====
-- Runs of a websocket connection.
use libtnet.Base.{◌≡◌, refl, ◌⊎◌, inl, inr, true, false, [], ◌∷◌, ◌++◌, arith, replicate}
use libtnet.Base.Bytes.{Bytes, codes}
use libtnet.Base.Outcome.{ret, fault, out_of_bounds, length_error}
use libtnet.WsConnection.{WsConnection, frame_start, Ret, took, notified, sent, message_event}
use libtnet.WsConnection.Receive.{handle_frame_data, close_on_error, on_read}
use libtnet.WsConnection.Receive.Handlers
use libtnet.WsConnection.Receive.Loop
use libtnet.WsConnection.Receive.Turn.{Lone, Wide}
use libtnet.WsConnection.Receive.RoundTrip.{client_frame}
use libtnet.WsConnection.Receive.Heads.{received}
use libtnet.WsConnection.Receive.RoundTrip
use libtnet.WsConnection.Receive.LongFrames
use libtnet.WsConnection.Receive.Messages.{process, continue_with}
use libtnet.WsConnection.Receive.Messages
use libtnet.WsConnection.Send.{frame_of, make, first_byte, length_bytes}

abbrev opened : WsConnection
unfolding make
opened = make frame_start 10485760 1073741824

abbrev hello : Bytes
hello = codes "hello"

abbrev key : Bytes
key = 55 ∷ 250 ∷ 33 ∷ 61 ∷ []

on_read-client_frame_example :
    on_read opened (client_frame true 1 key hello ++ 0x81 ∷ [])
    ≡ ret (close_on_error (handle_frame_data (received opened true 1 128 key hello)))
unfolding opened
on_read-client_frame_example =
    RoundTrip.on_read-client_frame opened true 1 hello (0x81 ∷ []) refl (omega arith)
      (inl (omega arith, omega arith)) (omega arith) (omega arith) key refl (ground arith)
      (ground arith) (omega arith)

on_read-frame_of_example :
    on_read opened (frame_of true 9 hello ++ [])
    ≡ ret (close_on_error (handle_frame_data (received opened true 9 0 [] hello)))
unfolding opened
on_read-frame_of_example =
    RoundTrip.on_read-frame_of opened true 9 hello [] refl (omega arith) (inr (omega arith))
      (omega arith) (omega arith)

on_read-Ready_example :
    (Lone opened (0x81 ∷ []) × (on_read opened (0x81 ∷ []) ≡ fault out_of_bounds))
    ⊎ ((Wide opened (0x81 ∷ []) × (on_read opened (0x81 ∷ []) ≡ fault length_error))
        ⊎ ((r : WsConnection × Ret) × (¬ Lone opened (0x81 ∷ []))
            × (on_read opened (0x81 ∷ []) ≡ ret r)
            × Handlers.Ready r.0))
unfolding opened
on_read-Ready_example = Loop.on_read-Ready opened (0x81 ∷ []) tt (omega arith)

-- A length of 2^63 passes the limit in the wrong byte order, and `reserve` throws.
huge_length :
    on_read opened (0x82 ∷ 0x7F ∷ 0x80 ∷ 0 ∷ 0 ∷ 0 ∷ 0 ∷ 0 ∷ 0 ∷ 0 ∷ []) ≡ fault length_error
unfolding opened on_read
huge_length = refl

fragments_example :
    let t = continue_with (codes "l" ∷ codes "l" ∷ []) (process false 1 (codes "he") opened).0 in
    let r = process true 0 (codes "o") t in
    (t.log ≡ [])
    × (r.0.log ≡ notified message_event hello ∷ [])
    × (r.0.app_data ≡ [])
    × (r.0.status ≡ frame_start)
unfolding opened
fragments_example =
    Messages.fragments opened 1 104 (codes "e") (codes "l" ∷ codes "l" ∷ []) (codes "o") (inl refl)
      refl

handle_final_example :
    let r = close_on_error (handle_frame_data (received opened true 9 0 [] hello)) in
    (r.0.log ≡ sent (frame_of true 0xA hello) ∷ [])
    × (r.0.status ≡ frame_start)
    × (r.0.app_data ≡ [])
    × (r.1 ≡ took 0)
unfolding opened
handle_final_example =
    Messages.handle_final opened 9 0 [] hello (inr (inr (inr (inl refl)))) (inl refl)

on_read_refuses_long_example :
    LongFrames.Failed opened
      (on_read opened (first_byte true 2 ∷ (length_bytes 65537 ++ replicate 4000 7)))
unfolding opened
on_read_refuses_long_example =
    LongFrames.on_read_refuses_long opened true 2 65537 (replicate 4000 7) refl (omega arith)
      (omega arith) (omega arith) (omega arith)
