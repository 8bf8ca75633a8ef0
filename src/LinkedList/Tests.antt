-- ===== src/LinkedList/Tests.antt =====
-- Runs of include/lib/List.h.
use Prim.{tt}
use valkyrie.Base.{ℕ, ◌≡◌, refl, [], ◌∷◌, ◌==◌, if◌then◌else◌, arith}
use valkyrie.Base.Outcome.{ok}
use valkyrie.LinkedList.{LinkedList, push_back, remove}
use valkyrie.LinkedList.Ends.{Holds}
use valkyrie.LinkedList.Pushes.{push_back_lem}
use valkyrie.LinkedList.Removals.{remove_lem}

-- The nodes 2 and 3, with the values 10 and 20.
abbrev two_values : LinkedList ℕ
two_values = record {
  next = λ k. if k == 1 then 2 else if k == 2 then 3 else if k == 3 then 1 else 0;
  prev = λ k. if k == 1 then 3 else if k == 2 then 1 else if k == 3 then 2 else 0;
  value = λ k. if k == 2 then 10 else 20;
  head = 1;
  size = 2;
  fresh = 4;
}

two_values-Holds : Holds two_values (10 ∷ 20 ∷ [])
two_values-Holds = (
  2 ∷ 3 ∷ [],
  record {
    chain = (refl, refl, (refl, refl, (refl, refl)));
    distinct = ((omega arith, tt), (tt, tt));
    no_head = (omega arith, (omega arith, tt));
    counted = refl;
    older = (omega arith, (omega arith, tt));
    older_head = omega arith;
  },
  refl,
)

push_back_lem_example : Holds (push_back two_values 30) (10 ∷ 20 ∷ 30 ∷ [])
push_back_lem_example = push_back_lem two_values 30 (10 ∷ 20 ∷ []) two_values-Holds (omega arith)

remove_lem_example :
    (l' : LinkedList ℕ) × (remove 3 two_values (λ x. x == 20) ≡ ok l') × Holds l' (10 ∷ [])
remove_lem_example =
    remove_lem 3 two_values (λ x. x == 20) (10 ∷ 20 ∷ []) two_values-Holds (omega arith)
      (omega arith)
