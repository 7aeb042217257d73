-- ===== src/Ranker/Tests.antt =====
-- Runs of the ranking graph.
use cpp_freshman.Prelude.{
  ℕ, ◌*◌, Bool, not, true, false, some, List, [], ◌∷◌, ◌++◌, ◌≡◌, refl, ascii, same_text,
}
use cpp_freshman.Ranker.{
  Double, RsRequest, RsResponse, Flags, Vertex, parse_request, expression, prerank, ranker, output,
  parse_flags, parse_process, output_response, fire, run_graph, empty_data,
}
use cpp_freshman.Ranker.Graph.{IsAnswered, in_order, run_graph_complete}

-- Digits, without their scale.
abbrev digits : Double ℕ
digits = record { decimal = (λ m k. m); times = ◌*◌ }

abbrev sdk_request : RsRequest
sdk_request = record {
  request_id = ascii "r1";
  adx = ascii "skt_test_sdkx";
  one_id = [];
  timeout = 20;
  ad_type = ascii "reward";
  channel = ascii "target";
}

abbrev blank : RsResponse
blank = record { error_msg = []; request_id = []; ext_algo_list = [] }

abbrev no_sdk : Flags → Bool
no_sdk flags = not flags.is_sdk_traffic

-- The vertices in reverse, and again.
abbrev reversed : List Vertex
reversed = output ∷ ranker ∷ prerank ∷ expression ∷ parse_request ∷ []

abbrev answer : RsResponse
answer = record {
  error_msg = ascii "success";
  request_id = ascii "r1";
  ext_algo_list = ascii "ext_algo";
}

flags-parse_flags :
    parse_flags sdk_request
    ≡ record { is_sdk_traffic = true; is_not_ivrv = false; is_special_channel = true }
unfolding parse_flags same_text
flags-parse_flags = refl

in_order-run_graph :
    (run_graph digits no_sdk sdk_request blank in_order empty_data).rs_response ≡ some answer
unfolding run_graph fire output_response parse_process
in_order-run_graph = refl

run_graph_complete_example :
    IsAnswered digits no_sdk sdk_request blank
      (run_graph digits no_sdk sdk_request blank (reversed ++ (in_order ++ reversed)) empty_data)
run_graph_complete_example = run_graph_complete digits no_sdk sdk_request blank reversed reversed
