-- ===== src/KeySchedule/Labels.antt =====
-- The labels of src/key_schedule.rs, byte by byte.
use embedded_tls.Prelude.{ℕ, List, [], ◌∷◌}

-- b"tls13 "
abbrev pub tls13 : List ℕ
tls13 = 116 ∷ 108 ∷ 115 ∷ 49 ∷ 51 ∷ 32 ∷ []

-- b"ext binder"
abbrev pub ext_binder : List ℕ
ext_binder = 101 ∷ 120 ∷ 116 ∷ 32 ∷ 98 ∷ 105 ∷ 110 ∷ 100 ∷ 101 ∷ 114 ∷ []

-- b"derived"
abbrev pub derived : List ℕ
derived = 100 ∷ 101 ∷ 114 ∷ 105 ∷ 118 ∷ 101 ∷ 100 ∷ []

-- b"c hs traffic"
abbrev pub c_hs_traffic : List ℕ
c_hs_traffic = 99 ∷ 32 ∷ 104 ∷ 115 ∷ 32 ∷ 116 ∷ 114 ∷ 97 ∷ 102 ∷ 102 ∷ 105 ∷ 99 ∷ []

-- b"s hs traffic"
abbrev pub s_hs_traffic : List ℕ
s_hs_traffic = 115 ∷ 32 ∷ 104 ∷ 115 ∷ 32 ∷ 116 ∷ 114 ∷ 97 ∷ 102 ∷ 102 ∷ 105 ∷ 99 ∷ []

-- b"c ap traffic"
abbrev pub c_ap_traffic : List ℕ
c_ap_traffic = 99 ∷ 32 ∷ 97 ∷ 112 ∷ 32 ∷ 116 ∷ 114 ∷ 97 ∷ 102 ∷ 102 ∷ 105 ∷ 99 ∷ []

-- b"s ap traffic"
abbrev pub s_ap_traffic : List ℕ
s_ap_traffic = 115 ∷ 32 ∷ 97 ∷ 112 ∷ 32 ∷ 116 ∷ 114 ∷ 97 ∷ 102 ∷ 102 ∷ 105 ∷ 99 ∷ []

-- b"key"
abbrev pub key : List ℕ
key = 107 ∷ 101 ∷ 121 ∷ []

-- b"iv"
abbrev pub iv : List ℕ
iv = 105 ∷ 118 ∷ []

-- b"finished"
abbrev pub finished : List ℕ
finished = 102 ∷ 105 ∷ 110 ∷ 105 ∷ 115 ∷ 104 ∷ 101 ∷ 100 ∷ []
