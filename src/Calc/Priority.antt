-- ===== src/Calc/Priority.antt =====
-- enum priorities.
use kedr_aux.Prelude.{ℕ}

abbrev pub min : ℕ
min = 0

abbrev pub cond_right : ℕ
cond_right = 1

abbrev pub cond_left : ℕ
cond_left = 2

abbrev pub logical_or_left : ℕ
logical_or_left = 3

abbrev pub logical_or_right : ℕ
logical_or_right = 4

abbrev pub logical_and_left : ℕ
logical_and_left = 5

abbrev pub logical_and_right : ℕ
logical_and_right = 6

abbrev pub binary_or_left : ℕ
binary_or_left = 7

abbrev pub binary_or_right : ℕ
binary_or_right = 8

abbrev pub binary_xor_left : ℕ
binary_xor_left = 9

abbrev pub binary_xor_right : ℕ
binary_xor_right = 10

abbrev pub binary_and_left : ℕ
binary_and_left = 11

abbrev pub binary_and_right : ℕ
binary_and_right = 12

abbrev pub equal_left : ℕ
equal_left = 13

abbrev pub equal_right : ℕ
equal_right = 14

abbrev pub inequal_left : ℕ
inequal_left = equal_left

abbrev pub inequal_right : ℕ
inequal_right = equal_right

abbrev pub less_left : ℕ
less_left = 15

abbrev pub less_right : ℕ
less_right = 16

abbrev pub greater_left : ℕ
greater_left = less_left

abbrev pub greater_right : ℕ
greater_right = less_right

abbrev pub less_equal_left : ℕ
less_equal_left = less_left

abbrev pub less_equal_right : ℕ
less_equal_right = less_right

abbrev pub greater_equal_left : ℕ
greater_equal_left = less_left

abbrev pub greater_equal_right : ℕ
greater_equal_right = less_right

abbrev pub left_shift_left : ℕ
left_shift_left = 17

abbrev pub left_shift_right : ℕ
left_shift_right = 18

abbrev pub right_shift_left : ℕ
right_shift_left = left_shift_left

abbrev pub right_shift_right : ℕ
right_shift_right = left_shift_right

abbrev pub plus_left : ℕ
plus_left = 19

abbrev pub plus_right : ℕ
plus_right = 20

abbrev pub minus_left : ℕ
minus_left = plus_left

abbrev pub minus_right : ℕ
minus_right = plus_right

abbrev pub multiply_left : ℕ
multiply_left = 21

abbrev pub multiply_right : ℕ
multiply_right = 22

abbrev pub divide_left : ℕ
divide_left = multiply_left

abbrev pub divide_right : ℕ
divide_right = multiply_right

abbrev pub rest_left : ℕ
rest_left = multiply_left

abbrev pub rest_right : ℕ
rest_right = multiply_right

abbrev pub unary_minus : ℕ
unary_minus = 23

abbrev pub unary_plus : ℕ
unary_plus = 23

abbrev pub logical_not : ℕ
logical_not = 24

abbrev pub binary_not : ℕ
binary_not = 24
