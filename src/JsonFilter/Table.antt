-- ===== src/JsonFilter/Table.antt =====
-- The character classes and the state transition table of evd/evd-json-filter.c. A class is an
-- index into a row of the table, and `none` stands for the error code __.
use event_dance.Common.{ℕ, List, [], ◌∷◌, Option, none, some, get_or}

-- enum classes
pub data Class : Type 0 where
  c_space c_white c_lcurb c_rcurb c_lsqrb c_rsqrb c_colon c_comma c_quote c_backs c_slash : Class
  c_plus c_minus c_point c_zero c_digit c_low_a c_low_b c_low_c c_low_d c_low_e c_low_f c_low_l :
      Class
  c_low_n c_low_r c_low_s c_low_t c_low_u c_abcdf c_upper_e c_etc : Class

abbrev class_index : Class → ℕ
class_index c_space = 0
class_index c_white = 1
class_index c_lcurb = 2
class_index c_rcurb = 3
class_index c_lsqrb = 4
class_index c_rsqrb = 5
class_index c_colon = 6
class_index c_comma = 7
class_index c_quote = 8
class_index c_backs = 9
class_index c_slash = 10
class_index c_plus = 11
class_index c_minus = 12
class_index c_point = 13
class_index c_zero = 14
class_index c_digit = 15
class_index c_low_a = 16
class_index c_low_b = 17
class_index c_low_c = 18
class_index c_low_d = 19
class_index c_low_e = 20
class_index c_low_f = 21
class_index c_low_l = 22
class_index c_low_n = 23
class_index c_low_r = 24
class_index c_low_s = 25
class_index c_low_t = 26
class_index c_low_u = 27
class_index c_abcdf = 28
class_index c_upper_e = 29
class_index c_etc = 30

unfoldable pub ascii_class : List (Option Class)
ascii_class =
    none
    ∷ none
    ∷ none
    ∷ none
    ∷ none
    ∷ none
    ∷ none
    ∷ none
    ∷ none
    ∷ some c_white
    ∷ some c_white
    ∷ none
    ∷ none
    ∷ some c_white
    ∷ none
    ∷ none
    ∷ none
    ∷ none
    ∷ none
    ∷ none
    ∷ none
    ∷ none
    ∷ none
    ∷ none
    ∷ none
    ∷ none
    ∷ none
    ∷ none
    ∷ none
    ∷ none
    ∷ none
    ∷ none
    ∷ some c_space
    ∷ some c_etc
    ∷ some c_quote
    ∷ some c_etc
    ∷ some c_etc
    ∷ some c_etc
    ∷ some c_etc
    ∷ some c_etc
    ∷ some c_etc
    ∷ some c_etc
    ∷ some c_etc
    ∷ some c_plus
    ∷ some c_comma
    ∷ some c_minus
    ∷ some c_point
    ∷ some c_slash
    ∷ some c_zero
    ∷ some c_digit
    ∷ some c_digit
    ∷ some c_digit
    ∷ some c_digit
    ∷ some c_digit
    ∷ some c_digit
    ∷ some c_digit
    ∷ some c_digit
    ∷ some c_digit
    ∷ some c_colon
    ∷ some c_etc
    ∷ some c_etc
    ∷ some c_etc
    ∷ some c_etc
    ∷ some c_etc
    ∷ some c_etc
    ∷ some c_abcdf
    ∷ some c_abcdf
    ∷ some c_abcdf
    ∷ some c_abcdf
    ∷ some c_upper_e
    ∷ some c_abcdf
    ∷ some c_etc
    ∷ some c_etc
    ∷ some c_etc
    ∷ some c_etc
    ∷ some c_etc
    ∷ some c_etc
    ∷ some c_etc
    ∷ some c_etc
    ∷ some c_etc
    ∷ some c_etc
    ∷ some c_etc
    ∷ some c_etc
    ∷ some c_etc
    ∷ some c_etc
    ∷ some c_etc
    ∷ some c_etc
    ∷ some c_etc
    ∷ some c_etc
    ∷ some c_etc
    ∷ some c_etc
    ∷ some c_lsqrb
    ∷ some c_backs
    ∷ some c_rsqrb
    ∷ some c_etc
    ∷ some c_etc
    ∷ some c_etc
    ∷ some c_low_a
    ∷ some c_low_b
    ∷ some c_low_c
    ∷ some c_low_d
    ∷ some c_low_e
    ∷ some c_low_f
    ∷ some c_etc
    ∷ some c_etc
    ∷ some c_etc
    ∷ some c_etc
    ∷ some c_etc
    ∷ some c_low_l
    ∷ some c_etc
    ∷ some c_low_n
    ∷ some c_etc
    ∷ some c_etc
    ∷ some c_etc
    ∷ some c_low_r
    ∷ some c_low_s
    ∷ some c_low_t
    ∷ some c_low_u
    ∷ some c_etc
    ∷ some c_etc
    ∷ some c_etc
    ∷ some c_etc
    ∷ some c_etc
    ∷ some c_lcurb
    ∷ some c_etc
    ∷ some c_rcurb
    ∷ some c_etc
    ∷ some c_etc
    ∷ []

-- enum states
pub data State : Type 0 where
  go ok ob ke co va ar st es u1 u2 u3 u4 mi ze int fr e1 e2 e3 t1 t2 t3 f1 f2 f3 f4 n1 n2 n3 : State

-- An entry of the table: the error code, a new state, or an action (-2 to -9, in this order).
pub data Cell : Type 0 where
  fail : Cell
  goto : State → Cell
  colon comma quote lsqrb lcurb rsqrb rcurb empty_rcurb : Cell

unfoldable pub row : State → List Cell
row go =
    goto go
    ∷ goto go
    ∷ lcurb
    ∷ fail
    ∷ lsqrb
    ∷ fail
    ∷ fail
    ∷ fail
    ∷ fail
    ∷ fail
    ∷ fail
    ∷ fail
    ∷ fail
    ∷ fail
    ∷ fail
    ∷ fail
    ∷ fail
    ∷ fail
    ∷ fail
    ∷ fail
    ∷ fail
    ∷ fail
    ∷ fail
    ∷ fail
    ∷ fail
    ∷ fail
    ∷ fail
    ∷ fail
    ∷ fail
    ∷ fail
    ∷ fail
    ∷ []
row ok =
    goto ok
    ∷ goto ok
    ∷ fail
    ∷ rcurb
    ∷ fail
    ∷ rsqrb
    ∷ fail
    ∷ comma
    ∷ fail
    ∷ fail
    ∷ fail
    ∷ fail
    ∷ fail
    ∷ fail
    ∷ fail
    ∷ fail
    ∷ fail
    ∷ fail
    ∷ fail
    ∷ fail
    ∷ fail
    ∷ fail
    ∷ fail
    ∷ fail
    ∷ fail
    ∷ fail
    ∷ fail
    ∷ fail
    ∷ fail
    ∷ fail
    ∷ fail
    ∷ []
row ob =
    goto ob
    ∷ goto ob
    ∷ fail
    ∷ empty_rcurb
    ∷ fail
    ∷ fail
    ∷ fail
    ∷ fail
    ∷ goto st
    ∷ fail
    ∷ fail
    ∷ fail
    ∷ fail
    ∷ fail
    ∷ fail
    ∷ fail
    ∷ fail
    ∷ fail
    ∷ fail
    ∷ fail
    ∷ fail
    ∷ fail
    ∷ fail
    ∷ fail
    ∷ fail
    ∷ fail
    ∷ fail
    ∷ fail
    ∷ fail
    ∷ fail
    ∷ fail
    ∷ []
row ke =
    goto ke
    ∷ goto ke
    ∷ fail
    ∷ fail
    ∷ fail
    ∷ fail
    ∷ fail
    ∷ fail
    ∷ goto st
    ∷ fail
    ∷ fail
    ∷ fail
    ∷ fail
    ∷ fail
    ∷ fail
    ∷ fail
    ∷ fail
    ∷ fail
    ∷ fail
    ∷ fail
    ∷ fail
    ∷ fail
    ∷ fail
    ∷ fail
    ∷ fail
    ∷ fail
    ∷ fail
    ∷ fail
    ∷ fail
    ∷ fail
    ∷ fail
    ∷ []
row co =
    goto co
    ∷ goto co
    ∷ fail
    ∷ fail
    ∷ fail
    ∷ fail
    ∷ colon
    ∷ fail
    ∷ fail
    ∷ fail
    ∷ fail
    ∷ fail
    ∷ fail
    ∷ fail
    ∷ fail
    ∷ fail
    ∷ fail
    ∷ fail
    ∷ fail
    ∷ fail
    ∷ fail
    ∷ fail
    ∷ fail
    ∷ fail
    ∷ fail
    ∷ fail
    ∷ fail
    ∷ fail
    ∷ fail
    ∷ fail
    ∷ fail
    ∷ []
row va =
    goto va
    ∷ goto va
    ∷ lcurb
    ∷ fail
    ∷ lsqrb
    ∷ fail
    ∷ fail
    ∷ fail
    ∷ goto st
    ∷ fail
    ∷ fail
    ∷ fail
    ∷ goto mi
    ∷ fail
    ∷ goto ze
    ∷ goto int
    ∷ fail
    ∷ fail
    ∷ fail
    ∷ fail
    ∷ fail
    ∷ goto f1
    ∷ fail
    ∷ goto n1
    ∷ fail
    ∷ fail
    ∷ goto t1
    ∷ fail
    ∷ fail
    ∷ fail
    ∷ fail
    ∷ []
row ar =
    goto ar
    ∷ goto ar
    ∷ lcurb
    ∷ fail
    ∷ lsqrb
    ∷ rsqrb
    ∷ fail
    ∷ fail
    ∷ goto st
    ∷ fail
    ∷ fail
    ∷ fail
    ∷ goto mi
    ∷ fail
    ∷ goto ze
    ∷ goto int
    ∷ fail
    ∷ fail
    ∷ fail
    ∷ fail
    ∷ fail
    ∷ goto f1
    ∷ fail
    ∷ goto n1
    ∷ fail
    ∷ fail
    ∷ goto t1
    ∷ fail
    ∷ fail
    ∷ fail
    ∷ fail
    ∷ []
row st =
    goto st
    ∷ fail
    ∷ goto st
    ∷ goto st
    ∷ goto st
    ∷ goto st
    ∷ goto st
    ∷ goto st
    ∷ quote
    ∷ goto es
    ∷ goto st
    ∷ goto st
    ∷ goto st
    ∷ goto st
    ∷ goto st
    ∷ goto st
    ∷ goto st
    ∷ goto st
    ∷ goto st
    ∷ goto st
    ∷ goto st
    ∷ goto st
    ∷ goto st
    ∷ goto st
    ∷ goto st
    ∷ goto st
    ∷ goto st
    ∷ goto st
    ∷ goto st
    ∷ goto st
    ∷ goto st
    ∷ []
row es =
    fail
    ∷ fail
    ∷ fail
    ∷ fail
    ∷ fail
    ∷ fail
    ∷ fail
    ∷ fail
    ∷ goto st
    ∷ goto st
    ∷ goto st
    ∷ fail
    ∷ fail
    ∷ fail
    ∷ fail
    ∷ fail
    ∷ fail
    ∷ goto st
    ∷ fail
    ∷ fail
    ∷ fail
    ∷ goto st
    ∷ fail
    ∷ goto st
    ∷ goto st
    ∷ fail
    ∷ goto st
    ∷ goto u1
    ∷ fail
    ∷ fail
    ∷ fail
    ∷ []
row u1 =
    fail
    ∷ fail
    ∷ fail
    ∷ fail
    ∷ fail
    ∷ fail
    ∷ fail
    ∷ fail
    ∷ fail
    ∷ fail
    ∷ fail
    ∷ fail
    ∷ fail
    ∷ fail
    ∷ goto u2
    ∷ goto u2
    ∷ goto u2
    ∷ goto u2
    ∷ goto u2
    ∷ goto u2
    ∷ goto u2
    ∷ goto u2
    ∷ fail
    ∷ fail
    ∷ fail
    ∷ fail
    ∷ fail
    ∷ fail
    ∷ goto u2
    ∷ goto u2
    ∷ fail
    ∷ []
row u2 =
    fail
    ∷ fail
    ∷ fail
    ∷ fail
    ∷ fail
    ∷ fail
    ∷ fail
    ∷ fail
    ∷ fail
    ∷ fail
    ∷ fail
    ∷ fail
    ∷ fail
    ∷ fail
    ∷ goto u3
    ∷ goto u3
    ∷ goto u3
    ∷ goto u3
    ∷ goto u3
    ∷ goto u3
    ∷ goto u3
    ∷ goto u3
    ∷ fail
    ∷ fail
    ∷ fail
    ∷ fail
    ∷ fail
    ∷ fail
    ∷ goto u3
    ∷ goto u3
    ∷ fail
    ∷ []
row u3 =
    fail
    ∷ fail
    ∷ fail
    ∷ fail
    ∷ fail
    ∷ fail
    ∷ fail
    ∷ fail
    ∷ fail
    ∷ fail
    ∷ fail
    ∷ fail
    ∷ fail
    ∷ fail
    ∷ goto u4
    ∷ goto u4
    ∷ goto u4
    ∷ goto u4
    ∷ goto u4
    ∷ goto u4
    ∷ goto u4
    ∷ goto u4
    ∷ fail
    ∷ fail
    ∷ fail
    ∷ fail
    ∷ fail
    ∷ fail
    ∷ goto u4
    ∷ goto u4
    ∷ fail
    ∷ []
row u4 =
    fail
    ∷ fail
    ∷ fail
    ∷ fail
    ∷ fail
    ∷ fail
    ∷ fail
    ∷ fail
    ∷ fail
    ∷ fail
    ∷ fail
    ∷ fail
    ∷ fail
    ∷ fail
    ∷ goto st
    ∷ goto st
    ∷ goto st
    ∷ goto st
    ∷ goto st
    ∷ goto st
    ∷ goto st
    ∷ goto st
    ∷ fail
    ∷ fail
    ∷ fail
    ∷ fail
    ∷ fail
    ∷ fail
    ∷ goto st
    ∷ goto st
    ∷ fail
    ∷ []
row mi =
    fail
    ∷ fail
    ∷ fail
    ∷ fail
    ∷ fail
    ∷ fail
    ∷ fail
    ∷ fail
    ∷ fail
    ∷ fail
    ∷ fail
    ∷ fail
    ∷ fail
    ∷ fail
    ∷ goto ze
    ∷ goto int
    ∷ fail
    ∷ fail
    ∷ fail
    ∷ fail
    ∷ fail
    ∷ fail
    ∷ fail
    ∷ fail
    ∷ fail
    ∷ fail
    ∷ fail
    ∷ fail
    ∷ fail
    ∷ fail
    ∷ fail
    ∷ []
row ze =
    goto ok
    ∷ goto ok
    ∷ fail
    ∷ rcurb
    ∷ fail
    ∷ rsqrb
    ∷ fail
    ∷ comma
    ∷ fail
    ∷ fail
    ∷ fail
    ∷ fail
    ∷ fail
    ∷ goto fr
    ∷ fail
    ∷ fail
    ∷ fail
    ∷ fail
    ∷ fail
    ∷ fail
    ∷ fail
    ∷ fail
    ∷ fail
    ∷ fail
    ∷ fail
    ∷ fail
    ∷ fail
    ∷ fail
    ∷ fail
    ∷ fail
    ∷ fail
    ∷ []
row int =
    goto ok
    ∷ goto ok
    ∷ fail
    ∷ rcurb
    ∷ fail
    ∷ rsqrb
    ∷ fail
    ∷ comma
    ∷ fail
    ∷ fail
    ∷ fail
    ∷ fail
    ∷ fail
    ∷ goto fr
    ∷ goto int
    ∷ goto int
    ∷ fail
    ∷ fail
    ∷ fail
    ∷ fail
    ∷ goto e1
    ∷ fail
    ∷ fail
    ∷ fail
    ∷ fail
    ∷ fail
    ∷ fail
    ∷ fail
    ∷ fail
    ∷ goto e1
    ∷ fail
    ∷ []
row fr =
    goto ok
    ∷ goto ok
    ∷ fail
    ∷ rcurb
    ∷ fail
    ∷ rsqrb
    ∷ fail
    ∷ comma
    ∷ fail
    ∷ fail
    ∷ fail
    ∷ fail
    ∷ fail
    ∷ fail
    ∷ goto fr
    ∷ goto fr
    ∷ fail
    ∷ fail
    ∷ fail
    ∷ fail
    ∷ goto e1
    ∷ fail
    ∷ fail
    ∷ fail
    ∷ fail
    ∷ fail
    ∷ fail
    ∷ fail
    ∷ fail
    ∷ goto e1
    ∷ fail
    ∷ []
row e1 =
    fail
    ∷ fail
    ∷ fail
    ∷ fail
    ∷ fail
    ∷ fail
    ∷ fail
    ∷ fail
    ∷ fail
    ∷ fail
    ∷ fail
    ∷ goto e2
    ∷ goto e2
    ∷ fail
    ∷ goto e3
    ∷ goto e3
    ∷ fail
    ∷ fail
    ∷ fail
    ∷ fail
    ∷ fail
    ∷ fail
    ∷ fail
    ∷ fail
    ∷ fail
    ∷ fail
    ∷ fail
    ∷ fail
    ∷ fail
    ∷ fail
    ∷ fail
    ∷ []
row e2 =
    fail
    ∷ fail
    ∷ fail
    ∷ fail
    ∷ fail
    ∷ fail
    ∷ fail
    ∷ fail
    ∷ fail
    ∷ fail
    ∷ fail
    ∷ fail
    ∷ fail
    ∷ fail
    ∷ goto e3
    ∷ goto e3
    ∷ fail
    ∷ fail
    ∷ fail
    ∷ fail
    ∷ fail
    ∷ fail
    ∷ fail
    ∷ fail
    ∷ fail
    ∷ fail
    ∷ fail
    ∷ fail
    ∷ fail
    ∷ fail
    ∷ fail
    ∷ []
row e3 =
    goto ok
    ∷ goto ok
    ∷ fail
    ∷ rcurb
    ∷ fail
    ∷ rsqrb
    ∷ fail
    ∷ comma
    ∷ fail
    ∷ fail
    ∷ fail
    ∷ fail
    ∷ fail
    ∷ fail
    ∷ goto e3
    ∷ goto e3
    ∷ fail
    ∷ fail
    ∷ fail
    ∷ fail
    ∷ fail
    ∷ fail
    ∷ fail
    ∷ fail
    ∷ fail
    ∷ fail
    ∷ fail
    ∷ fail
    ∷ fail
    ∷ fail
    ∷ fail
    ∷ []
row t1 =
    fail
    ∷ fail
    ∷ fail
    ∷ fail
    ∷ fail
    ∷ fail
    ∷ fail
    ∷ fail
    ∷ fail
    ∷ fail
    ∷ fail
    ∷ fail
    ∷ fail
    ∷ fail
    ∷ fail
    ∷ fail
    ∷ fail
    ∷ fail
    ∷ fail
    ∷ fail
    ∷ fail
    ∷ fail
    ∷ fail
    ∷ fail
    ∷ goto t2
    ∷ fail
    ∷ fail
    ∷ fail
    ∷ fail
    ∷ fail
    ∷ fail
    ∷ []
row t2 =
    fail
    ∷ fail
    ∷ fail
    ∷ fail
    ∷ fail
    ∷ fail
    ∷ fail
    ∷ fail
    ∷ fail
    ∷ fail
    ∷ fail
    ∷ fail
    ∷ fail
    ∷ fail
    ∷ fail
    ∷ fail
    ∷ fail
    ∷ fail
    ∷ fail
    ∷ fail
    ∷ fail
    ∷ fail
    ∷ fail
    ∷ fail
    ∷ fail
    ∷ fail
    ∷ fail
    ∷ goto t3
    ∷ fail
    ∷ fail
    ∷ fail
    ∷ []
row t3 =
    fail
    ∷ fail
    ∷ fail
    ∷ fail
    ∷ fail
    ∷ fail
    ∷ fail
    ∷ fail
    ∷ fail
    ∷ fail
    ∷ fail
    ∷ fail
    ∷ fail
    ∷ fail
    ∷ fail
    ∷ fail
    ∷ fail
    ∷ fail
    ∷ fail
    ∷ fail
    ∷ goto ok
    ∷ fail
    ∷ fail
    ∷ fail
    ∷ fail
    ∷ fail
    ∷ fail
    ∷ fail
    ∷ fail
    ∷ fail
    ∷ fail
    ∷ []
row f1 =
    fail
    ∷ fail
    ∷ fail
    ∷ fail
    ∷ fail
    ∷ fail
    ∷ fail
    ∷ fail
    ∷ fail
    ∷ fail
    ∷ fail
    ∷ fail
    ∷ fail
    ∷ fail
    ∷ fail
    ∷ fail
    ∷ goto f2
    ∷ fail
    ∷ fail
    ∷ fail
    ∷ fail
    ∷ fail
    ∷ fail
    ∷ fail
    ∷ fail
    ∷ fail
    ∷ fail
    ∷ fail
    ∷ fail
    ∷ fail
    ∷ fail
    ∷ []
row f2 =
    fail
    ∷ fail
    ∷ fail
    ∷ fail
    ∷ fail
    ∷ fail
    ∷ fail
    ∷ fail
    ∷ fail
    ∷ fail
    ∷ fail
    ∷ fail
    ∷ fail
    ∷ fail
    ∷ fail
    ∷ fail
    ∷ fail
    ∷ fail
    ∷ fail
    ∷ fail
    ∷ fail
    ∷ fail
    ∷ goto f3
    ∷ fail
    ∷ fail
    ∷ fail
    ∷ fail
    ∷ fail
    ∷ fail
    ∷ fail
    ∷ fail
    ∷ []
row f3 =
    fail
    ∷ fail
    ∷ fail
    ∷ fail
    ∷ fail
    ∷ fail
    ∷ fail
    ∷ fail
    ∷ fail
    ∷ fail
    ∷ fail
    ∷ fail
    ∷ fail
    ∷ fail
    ∷ fail
    ∷ fail
    ∷ fail
    ∷ fail
    ∷ fail
    ∷ fail
    ∷ fail
    ∷ fail
    ∷ fail
    ∷ fail
    ∷ fail
    ∷ goto f4
    ∷ fail
    ∷ fail
    ∷ fail
    ∷ fail
    ∷ fail
    ∷ []
row f4 =
    fail
    ∷ fail
    ∷ fail
    ∷ fail
    ∷ fail
    ∷ fail
    ∷ fail
    ∷ fail
    ∷ fail
    ∷ fail
    ∷ fail
    ∷ fail
    ∷ fail
    ∷ fail
    ∷ fail
    ∷ fail
    ∷ fail
    ∷ fail
    ∷ fail
    ∷ fail
    ∷ goto ok
    ∷ fail
    ∷ fail
    ∷ fail
    ∷ fail
    ∷ fail
    ∷ fail
    ∷ fail
    ∷ fail
    ∷ fail
    ∷ fail
    ∷ []
row n1 =
    fail
    ∷ fail
    ∷ fail
    ∷ fail
    ∷ fail
    ∷ fail
    ∷ fail
    ∷ fail
    ∷ fail
    ∷ fail
    ∷ fail
    ∷ fail
    ∷ fail
    ∷ fail
    ∷ fail
    ∷ fail
    ∷ fail
    ∷ fail
    ∷ fail
    ∷ fail
    ∷ fail
    ∷ fail
    ∷ fail
    ∷ fail
    ∷ fail
    ∷ fail
    ∷ fail
    ∷ goto n2
    ∷ fail
    ∷ fail
    ∷ fail
    ∷ []
row n2 =
    fail
    ∷ fail
    ∷ fail
    ∷ fail
    ∷ fail
    ∷ fail
    ∷ fail
    ∷ fail
    ∷ fail
    ∷ fail
    ∷ fail
    ∷ fail
    ∷ fail
    ∷ fail
    ∷ fail
    ∷ fail
    ∷ fail
    ∷ fail
    ∷ fail
    ∷ fail
    ∷ fail
    ∷ fail
    ∷ goto n3
    ∷ fail
    ∷ fail
    ∷ fail
    ∷ fail
    ∷ fail
    ∷ fail
    ∷ fail
    ∷ fail
    ∷ []
row n3 =
    fail
    ∷ fail
    ∷ fail
    ∷ fail
    ∷ fail
    ∷ fail
    ∷ fail
    ∷ fail
    ∷ fail
    ∷ fail
    ∷ fail
    ∷ fail
    ∷ fail
    ∷ fail
    ∷ fail
    ∷ fail
    ∷ fail
    ∷ fail
    ∷ fail
    ∷ fail
    ∷ fail
    ∷ fail
    ∷ goto ok
    ∷ fail
    ∷ fail
    ∷ fail
    ∷ fail
    ∷ fail
    ∷ fail
    ∷ fail
    ∷ fail
    ∷ []

-- state_transition_table[state][class]
unfoldable pub state_transition_table : State → Class → Cell
unfolding row
state_transition_table s c = get_or (row s) (class_index c) fail
