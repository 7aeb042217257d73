-- ===== src/Ranker.antt =====
-- example/brpc/common/common.h and example/brpc/processor/: the processors of the ranking graph, and
-- the graph that feeds each from the others' outputs, by the dependencies that their classes declare.
pub mod Graph
pub mod Tests
use cpp_freshman.Prelude.{
  ℕ, Bool, true, false, not, ◌||◌, ◌&&◌, Option, none, some, List, [], ◌∷◌, ◌==◌, Bytes, ascii,
  same_text,
}

-- A `double` and the operations on it that the processors use. `decimal m k` is the literal whose
-- digits are `m`, with `k` of them after the point.
pub record Double (D : Type 0) : Type 0 where
  pub decimal : ℕ → ℕ → D
  pub times : D → D → D

-- The fields of the messages that the processors read or write. An `int32` is its 32 bits.
pub record RsRequest : Type 0 where
  pub request_id : Bytes
  pub adx : Bytes
  pub one_id : Bytes
  pub timeout : ℕ
  pub ad_type : Bytes
  pub channel : Bytes

pub record RsResponse : Type 0 where
  pub error_msg : Bytes
  pub request_id : Bytes
  pub ext_algo_list : Bytes

pub record RequestInfo (D : Type 0) : Type 0 where
  pub timeout : ℕ
  pub price : D
  pub request_id : Bytes
  pub adx : Bytes
  pub one_id : Bytes

pub record PrerankInfo (D : Type 0) : Type 0 where
  pub queue_id : ℕ
  pub index : ℕ
  pub offer_id : ℕ
  pub pivr : D
  pub ecpm : D
  pub request_id : Bytes

pub record RankInfo (D : Type 0) : Type 0 where
  pub index : ℕ
  pub pivr : D
  pub ecpm : D
  pub request_id : Bytes

pub record ResponseInfo (D : Type 0) : Type 0 where
  pub timeout : ℕ
  pub bid_price : D
  pub bid_floor : D
  pub request_id : Bytes

-- The three flags that `ParseRequestProcessor` emits beside the request.
pub record Flags : Type 0 where
  pub is_sdk_traffic : Bool
  pub is_not_ivrv : Bool
  pub is_special_channel : Bool

abbrev pub minus_one : ℕ
minus_one = 0xffffffff

unfoldable pub parse_flags : RsRequest → Flags
unfolding same_text
parse_flags request = record {
  is_sdk_traffic = same_text request.adx (ascii "skt_test_sdkx");
  is_not_ivrv =
      not (same_text request.ad_type (ascii "reward") || same_text request.adx (ascii "inist"));
  is_special_channel =
      same_text request.channel (ascii "sdk_ee") || same_text request.channel (ascii "target");
}

module _ {D : Type 0} (double : Double D) where
  unfoldable pub parse_process : RsRequest → RequestInfo D
  parse_process request = record {
    timeout = request.timeout;
    price = double.decimal 1000 0;
    request_id = request.request_id;
    adx = request.adx;
    one_id = request.one_id;
  }

  abbrev pub default_prerank : PrerankInfo D
  default_prerank = record {
    queue_id = 0;
    index = minus_one;
    offer_id = 0;
    pivr = double.decimal 0 0;
    ecpm = double.decimal 0 0;
    request_id = [];
  }

  unfoldable pub prerank_process : RequestInfo D → Bool → PrerankInfo D
  prerank_process request true = default_prerank
  prerank_process request false = record default_prerank {
    ecpm = double.decimal 99999 0;
    offer_id = 11111;
    pivr = double.decimal 2 2;
    request_id = request.request_id;
  }

  unfoldable pub rank_process : RequestInfo D → PrerankInfo D → RankInfo D
  rank_process request prerank = record {
    index = minus_one;
    pivr = double.times (double.decimal 1 2) prerank.pivr;
    ecpm = double.decimal 300 0;
    request_id = request.request_id;
  }

  -- `price * prerank pivr * rank pivr * 1000 * ecpm`, from left to right.
  unfoldable pub bid_price : RequestInfo D → PrerankInfo D → RankInfo D → D
  bid_price request prerank rank =
      double.times
        (double.times (double.times (double.times request.price prerank.pivr) rank.pivr)
          (double.decimal 1000 0))
        prerank.ecpm

  unfoldable pub output_info : RequestInfo D → PrerankInfo D → RankInfo D → ResponseInfo D
  unfolding bid_price
  output_info request prerank rank = record {
    timeout = request.timeout;
    bid_price = bid_price request prerank rank;
    bid_floor = double.decimal 0 0;
    request_id = request.request_id;
  }

  -- The fields that `OutputProcessor` sets in the response; it keeps the others.
  unfoldable pub output_response : RequestInfo D → RsResponse → RsResponse
  output_response request response = record response {
    request_id = request.request_id;
    error_msg = ascii "success";
    ext_algo_list = ascii "ext_algo";
  }

-- The data of the graph; `none` is a datum that is not emitted yet.
pub record Data (D : Type 0) : Type 0 where
  pub normalized_request : Option (RequestInfo D)
  pub flags : Option Flags
  pub is_skip_pre_rank : Option Bool
  pub prerank_info : Option (PrerankInfo D)
  pub rank_info : Option (RankInfo D)
  pub response_info : Option (ResponseInfo D)
  pub rs_response : Option RsResponse

-- The vertices: the four processors, and the expression for `IsSkipPreRank`, which the graph library
-- evaluates from a file.
pub data Vertex : Type 0 where
  parse_request expression prerank ranker output : Vertex

abbrev pub empty_data : {D : Type 0} → Data D
empty_data = record {
  normalized_request = none;
  flags = none;
  is_skip_pre_rank = none;
  prerank_info = none;
  rank_info = none;
  response_info = none;
  rs_response = none;
}

module _ {D : Type 0} (double : Double D) (skip : Flags → Bool) (request : RsRequest)
    (preset : RsResponse) where
  -- A vertex whose dependencies are there emits its outputs; any other waits. A second emission
  -- would be of the same values.
  unfoldable pub fire : Vertex → Data D → Data D
  unfolding parse_flags parse_process prerank_process rank_process output_info output_response
  fire parse_request d = record d {
    normalized_request = some (parse_process double request);
    flags = some (parse_flags request);
  }
  fire expression d = elim d.flags [
    | none ↦ d
    | some flags ↦ record d { is_skip_pre_rank = some (skip flags) }
  ]
  fire prerank d = elim d.normalized_request [
    | none ↦ d
    | some info ↦ elim d.is_skip_pre_rank [
      | none ↦ d
      | some skipped ↦ record d { prerank_info = some (prerank_process double info skipped) }
    ]
  ]
  fire ranker d = elim d.normalized_request [
    | none ↦ d
    | some info ↦ elim d.prerank_info [
      | none ↦ d
      | some pre ↦ record d { rank_info = some (rank_process double info pre) }
    ]
  ]
  fire output d = elim d.normalized_request [
    | none ↦ d
    | some info ↦ elim d.prerank_info [
      | none ↦ d
      | some pre ↦ elim d.rank_info [
        | none ↦ d
        | some rank ↦ record d {
          response_info = some (output_info double info pre rank);
          rs_response = some (output_response double info preset);
        }
      ]
    ]
  ]

  -- The library runs the vertices in some order, and tries a vertex that waits again.
  unfoldable pub run_graph : List Vertex → Data D → Data D
  unfolding fire
  run_graph [] d = d
  run_graph (v ∷ vs) d = run_graph vs (fire v d)
