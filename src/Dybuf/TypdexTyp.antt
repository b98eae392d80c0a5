-- ===== src/Dybuf/TypdexTyp.antt =====
-- dybuf/dybuf.h: the anonymous `enum` of `typdex_typ_none` and so on; dybuf/dypkt.h: `dype`.
use lc_clibs.Base.{ℕ}

abbrev pub none : ℕ
none = 0

abbrev pub bool : ℕ
bool = 1

abbrev pub int : ℕ
int = 2

abbrev pub uint : ℕ
uint = 3

abbrev pub float : ℕ
float = 6

abbrev pub double : ℕ
double = 7

abbrev pub string : ℕ
string = 0xa

abbrev pub bytes : ℕ
bytes = 0xb

abbrev pub list : ℕ
list = 0xc

abbrev pub map : ℕ
map = 0xd

abbrev pub f : ℕ
f = 0xf
