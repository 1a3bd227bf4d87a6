-- ===== src/Tests/Lists.antt =====
-- Lists of cache/list.c with a time to live of 10.
use sftfs.Prelude.{ℕ, ◌≡◌, refl, none, some, [], ◌∷◌, List, arith, Returns}
use sftfs.Cache.Lru.{State, construct, insert}
use sftfs.Cache.Lru.Seg.{IsList}
use sftfs.Cache.Lru.Ends.{insert-PutLast}
use sftfs.Cache.Lru.Queue.{
  Op, insert_op, remove_op, refresh_op, evict_op, Represents, AdmitsAll, spec, spec_all,
  perform_all, perform_all-Represents,
}

abbrev empty_list : State
unfolding construct
empty_list = record {
  list = construct 10;
  nodes = λ p. record { prev = 0; next = 0; mod_time = 0 };
}

empty_list-IsList : IsList empty_list []
unfolding construct
empty_list-IsList = record { head = refl; tail = refl; links = tt; counted = refl }

abbrev one : State
one = insert 3 empty_list 1

abbrev only : List ℕ
only = 1 ∷ []

one-IsList : IsList one only
one-IsList = (insert-PutLast 3 empty_list 1 [] empty_list-IsList (omega arith) refl).longer

abbrev pair : List ℕ
pair = 1 ∷ 2 ∷ []

abbrev two : State
two = insert 5 one 2

two-IsList : IsList two pair
two-IsList = (insert-PutLast 5 one 2 only one-IsList (omega arith) refl).longer

empty_list-Represents : Represents 10 empty_list []
unfolding construct
empty_list-Represents = record { list = empty_list-IsList; timed = tt; same_ttl = refl }

-- Of two nodes, the first is refreshed, so that the other one expires first.
abbrev calls : List Op
calls =
    insert_op 3 1 ∷ insert_op 5 2 ∷ refresh_op 9 1 ∷ evict_op 16 ∷ evict_op 17 ∷ remove_op 1 ∷ []

calls_admitted : AdmitsAll 10 calls []
unfolding spec
calls_admitted = ((omega arith, refl), ((omega arith, refl), (refl, (tt, (tt, (refl, tt))))))

perform_all-Represents_example :
    Returns
      (perform_all calls empty_list)
      λ r. (r.0 ≡ (spec_all 10 calls []).0) × Represents 10 r.1 (spec_all 10 calls []).1
perform_all-Represents_example =
    perform_all-Represents 10 calls empty_list [] empty_list-Represents calls_admitted

answers : (spec_all 10 calls []).0 ≡ none ∷ none ∷ none ∷ some 2 ∷ none ∷ none ∷ []
unfolding spec_all
answers = refl
