-- ===== src/Token.antt =====
-- src/lib/mctoken.h: tokens. A one-character token has the character's code for its number; the
-- reserved words and the long symbols count from 257. The union `SemanticInfo` is its 64 bits: an
-- integer, the pattern of a float, the address of an interned name or the number of a heap object.
use mclua.Prelude.{ℕ}

pub record Token : Type 0 where
  pub token_number : ℕ
  pub semantics : ℕ

abbrev pub first_reserved : ℕ
first_reserved = 257

abbrev pub tk_and : ℕ
tk_and = 257

abbrev pub tk_break : ℕ
tk_break = 258

abbrev pub tk_do : ℕ
tk_do = 259

abbrev pub tk_else : ℕ
tk_else = 260

abbrev pub tk_elseif : ℕ
tk_elseif = 261

abbrev pub tk_end : ℕ
tk_end = 262

abbrev pub tk_false : ℕ
tk_false = 263

abbrev pub tk_for : ℕ
tk_for = 264

abbrev pub tk_function : ℕ
tk_function = 265

abbrev pub tk_goto : ℕ
tk_goto = 266

abbrev pub tk_if : ℕ
tk_if = 267

abbrev pub tk_in : ℕ
tk_in = 268

abbrev pub tk_local : ℕ
tk_local = 269

abbrev pub tk_nil : ℕ
tk_nil = 270

abbrev pub tk_not : ℕ
tk_not = 271

abbrev pub tk_or : ℕ
tk_or = 272

abbrev pub tk_repeat : ℕ
tk_repeat = 273

abbrev pub tk_return : ℕ
tk_return = 274

abbrev pub tk_then : ℕ
tk_then = 275

abbrev pub tk_true : ℕ
tk_true = 276

abbrev pub tk_until : ℕ
tk_until = 277

abbrev pub tk_while : ℕ
tk_while = 278

abbrev pub tk_name : ℕ
tk_name = 279

abbrev pub tk_concat : ℕ
tk_concat = 280

abbrev pub tk_dots : ℕ
tk_dots = 281

abbrev pub tk_eq : ℕ
tk_eq = 282

abbrev pub tk_ge : ℕ
tk_ge = 283

abbrev pub tk_le : ℕ
tk_le = 284

abbrev pub tk_ne : ℕ
tk_ne = 285

abbrev pub tk_idiv : ℕ
tk_idiv = 286

abbrev pub tk_shl : ℕ
tk_shl = 287

abbrev pub tk_shr : ℕ
tk_shr = 288

abbrev pub tk_dbcolon : ℕ
tk_dbcolon = 289

abbrev pub tk_int : ℕ
tk_int = 290

abbrev pub tk_flt : ℕ
tk_flt = 291

abbrev pub tk_string : ℕ
tk_string = 292

abbrev pub tk_eos : ℕ
tk_eos = 293

abbrev pub tk_err : ℕ
tk_err = 8
