-- ===== src/Engine/Tests.antt =====
-- Runs of the graph engine.
use cpp_freshman.Prelude.{
  true, ℕ, ◌≤◌, Bool, Option, none, some, List, [], ◌∷◌, ◌++◌, ◌≡◌, refl, ascii, if◌then◌else◌,
  arith, length, ltb,
}
use cpp_freshman.Engine.{
  VertexMessage, Expression, ObjectPool, GraphEngine, Command, new_engine, init_pool, ConfigFiles,
}
use cpp_freshman.Engine.Config.{wired, read_back, init_pool-read_back}
use cpp_freshman.Engine.Sharing.{get_times, repeat, init_pool-get_times}
use cpp_freshman.Engine.Service.{main_graph}

-- A pool as a queue with room for some graphs.
pub record Queue : Type 0 where
  pub room : ℕ
  pub graphs : List ℕ

abbrev pub pop_queue : ℕ → List ℕ → Option ℕ × Queue
pop_queue n [] = (none, record { room = n; graphs = [] })
pop_queue n (g ∷ gs) = (some g, record { room = n; graphs = gs })

abbrev pub push_queue : ℕ → Queue → Queue
push_queue g p = record p {
  graphs = (if ltb (length p.graphs) p.room then p.graphs ++ g ∷ [] else p.graphs);
}

pub pop_queue_empty : (p : Queue) → p.graphs ≡ [] → pop_queue p.room p.graphs ≡ (none, p)
pop_queue_empty p e = ground arith

pub pop_queue_one :
    (g : ℕ) (p : Queue)
    → p.graphs ≡ g ∷ []
    → pop_queue p.room p.graphs ≡ (some g, record p { graphs = [] })
pop_queue_one g p e = ground arith

pub push_queue_empty :
    (g : ℕ) (p : Queue) → p.graphs ≡ [] → 1 ≤ p.room → (push_queue g p).graphs ≡ g ∷ []
push_queue_empty g p e room = ground arith

abbrev pub queue : ObjectPool Queue
queue = record {
  new_pool = record { room = 0; graphs = [] };
  free = (λ p. p.graphs);
  capacity = (λ p. p.room);
  reserve_and_clear = (λ n p. record { room = n; graphs = [] });
  pop = (λ p. pop_queue p.room p.graphs);
  push = push_queue;
  free-reserve_and_clear = (λ n p. refl);
  capacity-reserve_and_clear = (λ n p. refl);
  pop_empty = pop_queue_empty;
  pop_one = (λ g p e. (record p { graphs = [] }, pop_queue_one g p e, refl, refl));
  push_empty = push_queue_empty;
  capacity-push = (λ g p. refl);
}

-- A library that builds whatever it is asked for.
abbrev pub builds : List Command → Bool
builds cs = true

abbrev pub vertex : VertexMessage
vertex = record {
  name = ascii "ParseRequest";
  emits = ascii "flags" ∷ [];
  depends = ascii "request" ∷ [];
}

abbrev pub expression : Expression
expression = record { exp_name = ascii "skip"; exp_val = ascii "true" }

abbrev pub files : ConfigFiles
files = record { vertices = some (vertex ∷ []); expressions = some (expression ∷ []) }

init_pool-read_back_example :
    (t : GraphEngine Queue) × (init_pool queue builds files 20 20 main_graph new_engine ≡ some t)
    × ((read_back t.builder).vertices ≡ wired vertex ∷ [])
    × ((read_back t.builder).expressions ≡ expression ∷ [])
init_pool-read_back_example =
    init_pool-read_back queue builds (vertex ∷ []) (expression ∷ []) 20 20 main_graph new_engine
      refl

init_pool-get_times_example :
    (t : GraphEngine Queue) × (init_pool queue builds files 20 20 main_graph new_engine ≡ some t)
    × ((get_times queue builds 2 main_graph t).0 ≡ repeat queue builds 2 0)
    × ((get_times queue builds 2 main_graph t).1.built ≡ t.builder ∷ [])
init_pool-get_times_example =
    init_pool-get_times queue builds (vertex ∷ []) (expression ∷ []) 20 20 1 main_graph new_engine
      refl (omega arith) refl
