-- ===== src/Tests/ServerRuns.antt =====
-- The theorems on server/cne-server.cpp at short answers and requests.
use caedral_notre_engine.Prelude.{
  ℕ, ◌+◌, ◌≡◌, ◌⊎◌, refl, true, false, List, [], ◌∷◌, ◌++◌, none, some, Bytes, codes, arith,
  if◌then◌else◌, ◌==◌,
}
use caedral_notre_engine.Prelude.Assoc.{contains}
use caedral_notre_engine.Api.Conversation.{conversation_owned_by, make_conversation_id}
use caedral_notre_engine.Session.Defs.{SessionSlot}
use caedral_notre_engine.Streaming.Lookahead.{Speculation, off}
use caedral_notre_engine.Server.Emitter.{open_tag, close_tag, visible, throws}
use caedral_notre_engine.Server.ThinkLaws.{visible_throws}
use caedral_notre_engine.Server.TokenStream.{EmitCtx, new_stream}
use caedral_notre_engine.Server.StreamLaws.{
  Act, pushes, pulls, finishes, answers, log_answers, empty_log, answers_refine_log,
}
use caedral_notre_engine.Server.Request.{RequestIds, Message, resolve_conversation_id, resolve_api}
use caedral_notre_engine.Server.RequestLaws.{resolve_conversation_id_owned}
use caedral_notre_engine.Server.Generate.{World, Generated, generate_loop}
use caedral_notre_engine.Server.GenerateLaws.{Continues, generate_loop-Continues}
use caedral_notre_engine.Tests.LlamaRuns.{Table, table_llama, table_llama-Lawful}

visible_throws_example :
    visible true false (open_tag ++ codes "add them" ++ close_tag ++ codes "4") ≡ throws
visible_throws_example =
    visible_throws false (codes "add them") (codes "4") (unfold contains in refl) (omega arith)

-- Two pieces, a pull between them, and the end.
abbrev two_pieces : List Act
two_pieces =
    pulls ∷ pushes (codes "four") ∷ pulls ∷ pushes (codes ".") ∷ finishes true ∷ pulls ∷ pulls ∷ []

answers_refine_log_example : answers two_pieces new_stream ≡ log_answers two_pieces empty_log
answers_refine_log_example = answers_refine_log two_pieces

abbrev chat_of_ann : RequestIds
chat_of_ann = record { chat_id = some (codes "7"); conversation_id = none; conv_hdr = [] }

resolve_conversation_id_owned_example :
    (codes "ann:7" ≡ []) ⊎ (conversation_owned_by (codes "ann:7") (codes "ann") ≡ true)
resolve_conversation_id_owned_example =
    resolve_conversation_id_owned chat_of_ann (codes "ann") (codes "ann:7") true refl
      (unfold resolve_conversation_id resolve_api make_conversation_id in refl)

abbrev message : Bytes → Message
message role = record { role = role; content = codes "hello" }

abbrev three_messages : List Message
three_messages = message (codes "system") ∷ message (codes "user") ∷ message (codes "user") ∷ []

-- Each sampled token is the number of the step, and token 3 ends the answer.
abbrev counting : World table_llama ℕ
counting = record {
  sample = λ n c. (n, n + 1);
  is_eog = λ t. t == 3;
  detokenize = λ ts. ts;
  during = λ c sp. sp;
  order = λ r. r;
  poll_stop = λ i. false;
}

abbrev ann_slot : SessionSlot
ann_slot = record {
  id = codes "ann:1";
  owner = codes "ann";
  kv_tokens = 5 ∷ 6 ∷ [];
  seq_id = some 0;
  last_tick = 1;
}

abbrev lanes : Table
lanes s = if s == 0 then 5 ∷ 6 ∷ [] else []

abbrev silent : EmitCtx
silent = record {
  em = record { toks = []; sent = 0; strip_think = false; stripped = false };
  stream = none;
  text = [];
  emitted = 0;
}

abbrev no_speculation : Speculation
no_speculation = record {
  pf_mode = off;
  step = none;
  id_slot = false;
  step_ids = λ b. [];
  looked = [];
  looked_step = none;
  queue = [];
  stop = false;
}

generate_loop-Continues_example :
    (g : Generated Table ℕ) × (generate_loop table_llama ℕ counting 8 0 lanes ann_slot 0 silent
        no_speculation
      ≡ some g)
    × Continues table_llama (λ c s. c s) table_llama-Lawful ℕ counting 0 8 ann_slot g
generate_loop-Continues_example =
    generate_loop-Continues table_llama (λ c s. c s) table_llama-Lawful ℕ counting 0 8 0 lanes
      ann_slot 0 silent no_speculation refl (refl, refl, refl)
