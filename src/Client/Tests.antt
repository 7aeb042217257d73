-- ===== src/Client/Tests.antt =====
-- Runs of the client.
use cpp_freshman.Prelude.{ℕ, ◌*◌, true, ◌≡◌, refl, ascii, []}
use cpp_freshman.Ranker.{Double, RsResponse}
use cpp_freshman.Client.{rpc_replied, no_channel, call_failed, printed, client_main, exit_code}

-- Digits, without their scale.
abbrev digits : Double ℕ
digits = record { decimal = (λ m k. m); times = ◌*◌ }

abbrev refusing : RsResponse
refusing = record { error_msg = ascii "no"; request_id = ascii "r"; ext_algo_list = [] }

prints_any_reply :
    client_main digits true (λ q. rpc_replied 42 refusing)
    ≡ printed (ascii "Reply: 42 ,msg:no ,request_id:r ,ext_algo_list:")
unfolding client_main
prints_any_reply = refl

exit_codes :
    (exit_code no_channel ≡ 255) × (exit_code (call_failed []) ≡ 255) × (exit_code (printed []) ≡ 0)
unfolding exit_code
exit_codes = (refl, refl, refl)
