-- ===== src/Tests/Echoing.antt =====
-- The two programs of echome with different counts.
use sipgox.Prelude.{◌%◌, ◌≡◌, [], ◌∷◌, ◌++◌, length, map, arith}
use sipgox.Prelude.Int.{pos}
use sipgox.Outcome.{ok, err, net_closed}
use sipgox.Rtp.Session.Client.{dialog_done, elapsed, test_packets}
use sipgox.EchoMe.Uas.{uas_loop}
use sipgox.EchoMe.Uac.{uac_loop}
use sipgox.EchoMe.Together.{repeated, deeds, uac_loop-uas_loop}
use sipgox.Tests.Packets.{plain_codec, plain_codec-IsFaithful, length-wire}

uac_loop-uas_loop_example :
    let sent = test_packets (λ i. i % 65536) 0 2 in
    let answers =
      uas_loop plain_codec
        (λ wire. ok (length wire))
        (pos 2)
        (map plain_codec.marshal sent ++ err net_closed ∷ []) in
    (answers ≡ (map (repeated 2) sent, ok tt))
    × (uac_loop plain_codec
          (λ wire. ok (length wire))
          (λ i. i % 65536)
          (pos 3)
          0
          (elapsed ∷ elapsed ∷ dialog_done ∷ [])
          (map plain_codec.marshal answers.0)
        ≡ (deeds 3 2 sent, ok tt))
uac_loop-uas_loop_example =
    uac_loop-uas_loop plain_codec plain_codec-IsFaithful length-wire (λ i. i % 65536)
      (λ i. omega arith) 3 1 2 [] net_closed [] (omega arith)
