-- ===== src/Chmod/Char.antt =====
-- The characters of the grammar of src/shared/chmod.c.
use fast_sync.Prelude.{ℕ}

abbrev pub comma : ℕ
comma = 44

abbrev pub digit_0 : ℕ
digit_0 = 48

abbrev pub digit_7 : ℕ
digit_7 = 55

abbrev pub upper_d : ℕ
upper_d = 68

abbrev pub upper_f : ℕ
upper_f = 70

abbrev pub upper_x : ℕ
upper_x = 88

abbrev pub a : ℕ
a = 97

abbrev pub g : ℕ
g = 103

abbrev pub o : ℕ
o = 111

abbrev pub r : ℕ
r = 114

abbrev pub s : ℕ
s = 115

abbrev pub t : ℕ
t = 116

abbrev pub u : ℕ
u = 117

abbrev pub w : ℕ
w = 119

abbrev pub x : ℕ
x = 120

abbrev pub plus : ℕ
plus = 43

abbrev pub minus : ℕ
minus = 45

abbrev pub equals : ℕ
equals = 61
