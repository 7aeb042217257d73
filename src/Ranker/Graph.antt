-- ===== src/Ranker/Graph.antt =====
-- The runs of the ranking graph, in any order of its vertices.
use cpp_freshman.Prelude.{
  ℕ, true, false, Bytes, ◌≢◌, ◌↔◌, same_text_iff, Bool-cases, inl, inr, Bool, Option, none, some,
  List, [], ◌∷◌, ◌++◌, ◌≡◌, refl, sym, ◌∙◌, ◌⊎◌, arith, ascii,
}
use mathlib.Core.Path.{subst}
use cpp_freshman.Ranker.{
  Double, RsRequest, RsResponse, RequestInfo, PrerankInfo, RankInfo, Flags, parse_flags,
  parse_process, prerank_process, rank_process, bid_price, output_info, output_response, Data,
  Vertex, parse_request, expression, prerank, ranker, output, fire, run_graph, empty_data,
}

-- The order of the dependencies.
abbrev pub in_order : List Vertex
in_order = parse_request ∷ expression ∷ prerank ∷ ranker ∷ output ∷ []

-- A datum that is there has a certain value.
abbrev pub IsAtMost : {A : Type 0} → Option A → A → Type 0
IsAtMost o x = (o ≡ none) ⊎ (o ≡ some x)

module _ {D : Type 0} (double : Double D) (skip : Flags → Bool) (request : RsRequest)
    (preset : RsResponse) where
  -- The four processors in a row.
  abbrev pub info : RequestInfo D
  info = parse_process double request

  abbrev pub pre : PrerankInfo D
  pre = prerank_process double info (skip (parse_flags request))

  abbrev pub rank : RankInfo D
  rank = rank_process double info pre

  pub record IsPart (d : Data D) : Type 0 where
    pub request_at : IsAtMost d.normalized_request info
    pub flags_at : IsAtMost d.flags (parse_flags request)
    pub skip_at : IsAtMost d.is_skip_pre_rank (skip (parse_flags request))
    pub prerank_at : IsAtMost d.prerank_info pre
    pub rank_at : IsAtMost d.rank_info rank
    pub response_at : IsAtMost d.response_info (output_info double info pre rank)
    pub rs_response_at : IsAtMost d.rs_response (output_response double info preset)

  fire-IsPart : (v : Vertex) (d : Data D) → IsPart d → IsPart (fire double skip request preset v d)
  unfolding fire
  fire-IsPart parse_request d p = ground arith
  fire-IsPart expression d p = ground arith
  fire-IsPart prerank d p = ground arith
  fire-IsPart ranker d p = ground arith
  fire-IsPart output d p = ground arith

  run_graph-IsPart :
      (vs : List Vertex) (d : Data D)
      → IsPart d
      → IsPart (run_graph double skip request preset vs d)
  unfolding run_graph
  run_graph-IsPart [] d p = p
  run_graph-IsPart (v ∷ vs) d p =
      run_graph-IsPart vs (fire double skip request preset v d) (fire-IsPart v d p)

  -- In whatever order the vertices run and however often, a datum that is there is what the
  -- processors in a row make of the request: the response is never made of anything else.
  pub run_graph_never_wrong :
      (vs : List Vertex) → IsPart (run_graph double skip request preset vs empty_data)
  run_graph_never_wrong vs = run_graph-IsPart vs empty_data (ground arith)

  -- Every datum is there.
  pub record IsFull (d : Data D) : Type 0 where
    pub request_at : d.normalized_request ≡ some info
    pub flags_at : d.flags ≡ some (parse_flags request)
    pub skip_at : d.is_skip_pre_rank ≡ some (skip (parse_flags request))
    pub prerank_at : d.prerank_info ≡ some pre
    pub rank_at : d.rank_info ≡ some rank
    pub response_at : d.response_info ≡ some (output_info double info pre rank)
    pub rs_response_at : d.rs_response ≡ some (output_response double info preset)

  fire-IsFull : (v : Vertex) (d : Data D) → IsFull d → IsFull (fire double skip request preset v d)
  unfolding fire
  fire-IsFull parse_request d p = ground arith
  fire-IsFull expression d p = ground arith
  fire-IsFull prerank d p = ground arith
  fire-IsFull ranker d p = ground arith
  fire-IsFull output d p = ground arith

  run_graph-IsFull :
      (vs : List Vertex) (d : Data D)
      → IsFull d
      → IsFull (run_graph double skip request preset vs d)
  unfolding run_graph
  run_graph-IsFull [] d p = p
  run_graph-IsFull (v ∷ vs) d p =
      run_graph-IsFull vs (fire double skip request preset v d) (fire-IsFull v d p)

  run_graph-append :
      (vs ws : List Vertex) (d : Data D)
      → run_graph double skip request preset (vs ++ ws) d
        ≡ run_graph double skip request preset ws (run_graph double skip request preset vs d)
  unfolding run_graph
  run_graph-append [] ws d = refl
  run_graph-append (v ∷ vs) ws d = run_graph-append vs ws (fire double skip request preset v d)

  in_order-IsFull : (d : Data D) → IsFull (run_graph double skip request preset in_order d)
  unfolding run_graph fire
  in_order-IsFull d = record {
    request_at = refl;
    flags_at = refl;
    skip_at = refl;
    prerank_at = refl;
    rank_at = refl;
    response_at = refl;
    rs_response_at = refl;
  }

  run_graph_complete-IsFull :
      (before after : List Vertex)
      → IsFull (run_graph double skip request preset (before ++ (in_order ++ after)) empty_data)
  run_graph_complete-IsFull before after =
      subst IsFull
        (sym (
          run_graph-append before (in_order ++ after) empty_data
          ∙ run_graph-append in_order after
              (run_graph double skip request preset before empty_data)))
        (run_graph-IsFull after _
          (in_order-IsFull (run_graph double skip request preset before empty_data)))

  -- The flags say which texts the request has.
  pub record AreFlags (f : Flags) : Type 0 where
    pub sdk : (f.is_sdk_traffic ≡ true) ↔ (request.adx ≡ ascii "skt_test_sdkx")
    pub not_ivrv :
        (f.is_not_ivrv ≡ true)
        ↔ ((request.ad_type ≢ ascii "reward") × (request.adx ≢ ascii "inist"))
    pub special :
        (f.is_special_channel ≡ true)
        ↔ ((request.channel ≡ ascii "sdk_ee") ⊎ (request.channel ≡ ascii "target"))

  parse_flags-AreFlags : AreFlags (parse_flags request)
  unfolding parse_flags
  parse_flags-AreFlags = record {
    sdk = same_text_iff request.adx (ascii "skt_test_sdkx");
    not_ivrv = ground (
      arith,
      same_text_iff request.ad_type (ascii "reward"),
      same_text_iff request.adx (ascii "inist"),
    );
    special = ground (
      arith,
      same_text_iff request.channel (ascii "sdk_ee"),
      same_text_iff request.channel (ascii "target"),
    );
  }

  -- The results of the ranking, whether the first stage is skipped or not: no index, the rate of
  -- the second stage as 0.01 times that of the first, and the bid price as the product of 1000, the
  -- two rates, 1000, and the `ecpm` of the first stage.
  pub record IsRanked (d : Data D) (offer : ℕ) (rate ecpm : D) (id : Bytes) : Type 0 where
    pub prerank_at :
        d.prerank_info
        ≡ some (record {
          queue_id = 0;
          index = 0xffffffff;
          offer_id = offer;
          pivr = rate;
          ecpm = ecpm;
          request_id = id;
        })
    pub rank_at :
        d.rank_info
        ≡ some (record {
          index = 0xffffffff;
          pivr = double.times (double.decimal 1 2) rate;
          ecpm = double.decimal 300 0;
          request_id = request.request_id;
        })
    pub response_at :
        d.response_info
        ≡ some (record {
          timeout = request.timeout;
          bid_price =
              double.times
                (double.times
                  (double.times
                    (double.times (double.decimal 1000 0) rate)
                    (double.times (double.decimal 1 2) rate))
                  (double.decimal 1000 0))
                ecpm;
          bid_floor = double.decimal 0 0;
          request_id = request.request_id;
        })

  -- Every datum has its value.
  pub record IsAnswered (d : Data D) : Type 0 where
    pub flags : Flags
    pub flags_at : d.flags ≡ some flags
    pub flags_are : AreFlags flags
    pub request_at :
        d.normalized_request
        ≡ some (record {
          timeout = request.timeout;
          price = double.decimal 1000 0;
          request_id = request.request_id;
          adx = request.adx;
          one_id = request.one_id;
        })
    pub skip_at : d.is_skip_pre_rank ≡ some (skip flags)
    pub ranked :
        ((skip flags ≡ true) × IsRanked d 0 (double.decimal 0 0) (double.decimal 0 0) [])
        ⊎ ((skip flags ≡ false)
            × IsRanked d 11111 (double.decimal 2 2) (double.decimal 99999 0) request.request_id)
    pub rs_response_at :
        d.rs_response
        ≡ some (record {
          request_id = request.request_id;
          error_msg = ascii "success";
          ext_algo_list = ascii "ext_algo";
        })

  IsFull-IsRanked :
      (d : Data D)
      → IsFull d
      → ((skip (parse_flags request) ≡ true)
          × IsRanked d 0 (double.decimal 0 0) (double.decimal 0 0) [])
        ⊎ ((skip (parse_flags request) ≡ false)
            × IsRanked d 11111 (double.decimal 2 2) (double.decimal 99999 0) request.request_id)
  unfolding parse_process prerank_process rank_process output_info bid_price
  IsFull-IsRanked d p = elim (Bool-cases (skip (parse_flags request))) [
    | inl e ↦ inl (
      e,
      record {
        prerank_at = p.prerank_at ∙ rw e refl;
        rank_at = p.rank_at ∙ rw e refl;
        response_at = p.response_at ∙ rw e refl;
      },
    )
    | inr e ↦ inr (
      e,
      record {
        prerank_at = p.prerank_at ∙ rw e refl;
        rank_at = p.rank_at ∙ rw e refl;
        response_at = p.response_at ∙ rw e refl;
      },
    )
  ]

  -- Whatever ran before, once the vertices have run in the order of their dependencies every datum
  -- is there and stays there, whatever runs after. The flags say which texts the request has. The
  -- first stage gives offer 11111, rate 0.02 and ecpm 99999, or zeros where the expression skips it;
  -- the second gives 0.01 times that rate, and the bid price is the product of 1000, both rates,
  -- 1000 and that ecpm. The response is a success with the id of the request.
  pub run_graph_complete :
      (before after : List Vertex)
      → IsAnswered (run_graph double skip request preset (before ++ (in_order ++ after)) empty_data)
  unfolding parse_process output_response
  run_graph_complete before after =
      let d = run_graph double skip request preset (before ++ (in_order ++ after)) empty_data in
      let p = run_graph_complete-IsFull before after in
      record {
        flags = parse_flags request;
        flags_at = p.flags_at;
        flags_are = parse_flags-AreFlags;
        request_at = p.request_at;
        skip_at = p.skip_at;
        ranked = IsFull-IsRanked d p;
        rs_response_at = p.rs_response_at;
      }

  -- A response that some run has emitted has the id of the request and the texts of a success.
  pub run_graph_response :
      (vs : List Vertex)
      → (response : RsResponse)
      → (run_graph double skip request preset vs empty_data).rs_response ≡ some response
      → (response.request_id ≡ request.request_id)
        × ((response.error_msg ≡ ascii "success") × (response.ext_algo_list ≡ ascii "ext_algo"))
  unfolding output_response parse_process
  run_graph_response vs response e =
      let p = run_graph_never_wrong vs in ground (arith, p.rs_response_at)
