-- ===== src/Client.antt =====
-- `main` of example/brpc/brpc_client.cpp: one request to the service, and what it prints of the
-- reply. The channel and the call over the network are the library's, and parameters.
pub mod Tests
use cpp_freshman.Prelude.{
  ℕ, Bool, true, false, Option, none, some, List, [], ◌∷◌, ◌++◌, Bytes, ascii,
}
use cpp_freshman.Cassandra.{to_string}
use cpp_freshman.Ranker.{Double, RsRequest, RsResponse}

-- The messages that `main` fills. An `int32` or `int64` that it sets is a number.
pub record PackageInfo (D : Type 0) : Type 0 where
  pub package_name : Bytes
  pub app_name : Bytes
  pub app_size : ℕ
  pub content_rating : ℕ
  pub num_ratings : ℕ
  pub rating : D
  pub developer_id : Bytes
  pub bundle_id : Bytes
  pub market_status : ℕ
  pub normalized_package_name : Bytes
  pub normalized_developer_id : Bytes
  pub business_category_1 : ℕ
  pub business_category_2 : ℕ
  pub mtg_category_level_1 : ℕ
  pub mtg_category_level_2 : ℕ
  pub mtg_category_level_3 : ℕ
  pub category_type : ℕ
  pub market_category : List Bytes
  pub market_sub_category : List Bytes
  pub similar_packages : List Bytes
  pub developer_packages : List Bytes

pub record OfferInfo (D : Type 0) : Type 0 where
  pub demand_offer_id : ℕ
  pub given_price : D
  pub received_price : D
  pub given_price_factor : D
  pub target_goal_type : ℕ
  pub target_goal_value : D
  pub target_goal_window : ℕ
  pub queue_id : ℕ
  pub index : ℕ
  pub package_info : PackageInfo D

-- A request: the fields that the service reads, and the others.
pub record ClientRequest (D : Type 0) : Type 0 where
  pub message : Bytes
  pub fields : RsRequest
  pub offer_info : List (OfferInfo D)

-- What `main` finds in the controller and the response after the call: an error with its text, or
-- the `status_code` and the other fields that it prints.
pub data RpcReply : Type 0 where
  rpc_failed : Bytes → RpcReply
  rpc_replied : ℕ → RsResponse → RpcReply

-- How `main` ends: -1 after either error, with the text that it logs, or 0 with the printed line.
pub data ClientEnd : Type 0 where
  no_channel : ClientEnd
  call_failed : Bytes → ClientEnd
  printed : Bytes → ClientEnd

abbrev pub rs_request : RsRequest
rs_request = record {
  request_id = ascii "66503a39b2c54d0007e800dx";
  adx = ascii "skt_test_sdk";
  one_id = ascii "test491d1fe44b98ac63991161b21e5bd5af45";
  timeout = 166;
  ad_type = ascii "reward";
  channel = ascii "trageting";
}

-- The line that is printed for a reply.
unfoldable pub reply_line : ℕ → RsResponse → Bytes
unfolding to_string
reply_line status_code r =
    ascii "Reply: "
    ++ (to_string status_code
        ++ (ascii " ,msg:"
            ++ (r.error_msg
                ++ (ascii " ,request_id:"
                    ++ (r.request_id ++ (ascii " ,ext_algo_list:" ++ r.ext_algo_list))))))

module _ {D : Type 0} (double : Double D) where
  abbrev pub package_info : PackageInfo D
  package_info = record {
    package_name = ascii "com.example.app";
    app_name = ascii "Example App";
    app_size = 1024;
    content_rating = 4;
    num_ratings = 1000;
    rating = double.decimal 45 1;
    developer_id = ascii "developer123";
    bundle_id = ascii "com.example.app";
    market_status = 1;
    normalized_package_name = ascii "com.example.app";
    normalized_developer_id = ascii "developer123";
    business_category_1 = 1;
    business_category_2 = 2;
    mtg_category_level_1 = 1;
    mtg_category_level_2 = 2;
    mtg_category_level_3 = 3;
    category_type = 1;
    market_category = ascii "category1" ∷ [];
    market_sub_category = ascii "subcategory1" ∷ [];
    similar_packages = ascii "similar1" ∷ [];
    developer_packages = ascii "developer1" ∷ [];
  }

  abbrev pub offer_info : OfferInfo D
  offer_info = record {
    demand_offer_id = 123;
    given_price = double.decimal 105 1;
    received_price = double.decimal 98 1;
    given_price_factor = double.decimal 12 1;
    target_goal_type = 1;
    target_goal_value = double.decimal 1000 1;
    target_goal_window = 7;
    queue_id = 1234;
    index = 1;
    package_info = package_info;
  }

  abbrev pub client_request : ClientRequest D
  client_request = record {
    message = ascii "Test message";
    fields = rs_request;
    offer_info = offer_info ∷ [];
  }

  -- `main`, given whether `channel.Init` succeeds and what `stub.SayHello` makes of a request.
  unfoldable pub client_main : Bool → (ClientRequest D → RpcReply) → ClientEnd
  unfolding reply_line
  client_main false say_hello = no_channel
  client_main true say_hello = elim (say_hello client_request) [
    | rpc_failed error ↦ call_failed error
    | rpc_replied status_code r ↦ printed (reply_line status_code r)
  ]

-- The exit code of the process.
unfoldable pub exit_code : ClientEnd → ℕ
exit_code no_channel = 255
exit_code (call_failed error) = 255
exit_code (printed line) = 0
