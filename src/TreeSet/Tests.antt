-- ===== src/TreeSet/Tests.antt =====
-- Runs of the sets over numbers, and their theorems at them.
use microservice_kit.Prelude.{ℕ, ◌↔◌, ◌≡◌, refl, true, not, ◌&&◌, ◌||◌, some}
use microservice_kit.TreeMap.{Node, nil, node, Color, red, black, entries, inorder}
use microservice_kit.TreeMap.Tests.{by_size, by_size-IsWeakOrder}
use microservice_kit.TreeSet.{TreeSet, contains, union, intersection, difference, equal}
use microservice_kit.TreeSet.Members.{IsValidSet, Made}
use microservice_kit.TreeSet.Algebra

abbrev leaf : Color → ℕ → Node ℕ (Unit {0})
leaf c n = node c nil n tt nil

abbrev one_to_three : TreeSet ℕ
one_to_three = record {
  tm = record { root = node black (leaf red 1) 2 tt (leaf red 3); cmp = by_size; size = 3 };
}

abbrev three_and_four : TreeSet ℕ
three_and_four = record {
  tm = record { root = node black nil 3 tt (leaf red 4); cmp = by_size; size = 2 };
}

one_to_three-IsValidSet : IsValidSet by_size one_to_three
unfolding entries inorder
one_to_three-IsValidSet = record {
  valid = record {
    order = by_size-IsWeakOrder;
    balanced = (refl, (refl, tt, (refl, (refl, refl), tt, tt), (refl, (refl, refl), tt, tt)));
    sorted = ((refl, (refl, tt)), ((refl, tt), (tt, tt)));
    sized = refl;
  };
  ordered_by = refl;
}

three_and_four-IsValidSet : IsValidSet by_size three_and_four
unfolding entries inorder
three_and_four-IsValidSet = record {
  valid = record {
    order = by_size-IsWeakOrder;
    balanced = (refl, (refl, tt, tt, (refl, (refl, refl), tt, tt)));
    sorted = ((refl, tt), (tt, tt));
    sized = refl;
  };
  ordered_by = refl;
}

equal-contains_example :
    (equal one_to_three three_and_four ≡ true)
    ↔ ((item : ℕ) → contains one_to_three item ≡ contains three_and_four item)
equal-contains_example =
    Algebra.equal-contains by_size one_to_three three_and_four one_to_three-IsValidSet
      three_and_four-IsValidSet

operations-contains_example :
    ((r : TreeSet ℕ) × (union one_to_three three_and_four ≡ some r)
      × Made by_size (λ item. contains three_and_four item || contains one_to_three item) r)
    × ((r : TreeSet ℕ) × (intersection one_to_three three_and_four ≡ some r)
        × Made by_size (λ item. contains one_to_three item && contains three_and_four item) r)
    × ((r : TreeSet ℕ) × (difference one_to_three three_and_four ≡ some r)
        × Made by_size (λ item. not (contains three_and_four item) && contains one_to_three item) r)
operations-contains_example =
    Algebra.operations-contains by_size one_to_three three_and_four one_to_three-IsValidSet
      three_and_four-IsValidSet
