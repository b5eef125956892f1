-- ===== src/Pgwire/Bodies.antt =====
-- The bodies of the frontend messages, as the protocol lays them out, read back by the parsers.
use agentx_proxy.Prelude.{
  ℕ, ◌-◌, ◌^◌, ◌<◌, ◌≡◌, refl, ap, Option, none, some, List, [], ◌∷◌, ◌++◌, append_assoc,
  append-nil, arith, Bytes, length, take, take-append, drop-append, All, length-append, ok,
}
use agentx_proxy.Pgwire.{
  Parse, Bind, Execute, Target, take_uint16, take_uint32, cut_string, repeat, take_param,
  parse_query, parse_parse_body, parse_parse, parse_bind_body, parse_bind, parse_execute_body,
  parse_execute, parse_target, big_endian16, big_endian32,
}
use agentx_proxy.Pgwire.Frontend.{
  LacksNul, take_uint16-big_endian16, take_uint32-big_endian32, cut_string-append, encode_all,
  repeat-encode_all,
}

unfoldable pub cstring : Bytes → Bytes
cstring s = s ++ 0 ∷ []

unfoldable pub parse_layout : Parse → Bytes
parse_layout p =
    cstring p.name
    ++ (cstring p.query
        ++ (big_endian16 (length p.parameter_oids) ++ encode_all big_endian32 p.parameter_oids))

-- A parameter: its length and bytes, or the length -1 for NULL.
unfoldable pub param_layout : Option Bytes → Bytes
param_layout none = big_endian32 (2 ^ 32 - 1)
param_layout (some v) = big_endian32 (length v) ++ v

abbrev pub ParamFits : Option Bytes → Type 0
ParamFits none = Unit
ParamFits (some v) = length v < 2 ^ 31

unfoldable pub bind_layout : Bind → Bytes
bind_layout b =
    cstring b.portal
    ++ (cstring b.prepared_statement
        ++ (big_endian16 (length b.parameter_format_codes)
            ++ (encode_all big_endian16 b.parameter_format_codes
                ++ (big_endian16 (length b.parameters)
                    ++ (encode_all param_layout b.parameters
                        ++ (big_endian16 (length b.result_format_codes)
                            ++ encode_all big_endian16 b.result_format_codes))))))

unfoldable pub execute_layout : Execute → Bytes
execute_layout e = cstring e.portal ++ big_endian32 e.max_rows

unfoldable pub target_layout : Target → Bytes
target_layout t = t.kind ∷ cstring t.name

-- Names without a NUL, counts of 16 bits and fields of 16 or 32 bits.
pub record ParseFits (p : Parse) : Type 0 where
  pub name : LacksNul p.name
  pub query : LacksNul p.query
  pub count : length p.parameter_oids < 2 ^ 16
  pub oids : All (λ n. n < 2 ^ 32) p.parameter_oids

pub record BindFits (b : Bind) : Type 0 where
  pub portal : LacksNul b.portal
  pub statement : LacksNul b.prepared_statement
  pub format_count : length b.parameter_format_codes < 2 ^ 16
  pub formats : All (λ n. n < 2 ^ 16) b.parameter_format_codes
  pub param_count : length b.parameters < 2 ^ 16
  pub params : All ParamFits b.parameters
  pub result_count : length b.result_format_codes < 2 ^ 16
  pub results : All (λ n. n < 2 ^ 16) b.result_format_codes

cut_cstring : (s rest : Bytes) → LacksNul s → cut_string (cstring s ++ rest) ≡ (ok s, rest)
unfolding cstring
cut_cstring s rest h = rw append_assoc (cut_string-append s rest h)

pub take_param-param_layout :
    (p : Option Bytes) (rest : Bytes)
    → ParamFits p
    → take_param (param_layout p ++ rest) ≡ (ok p, rest)
unfolding param_layout take_param
take_param-param_layout none rest h = ground (arith, take_uint32-big_endian32 (2 ^ 32 - 1) rest)
take_param-param_layout (some v) rest h = rw append_assoc (
    ground (
      arith,
      take_uint32-big_endian32 (length v) (v ++ rest),
      length-append v rest,
      take-append v rest,
      drop-append v rest,
    ))

uint16s :
    (ns : List ℕ) (rest : Bytes)
    → All (λ n. n < 2 ^ 16) ns
    → repeat (length ns) take_uint16 (encode_all big_endian16 ns ++ rest) ≡ (ok ns, rest)
uint16s = repeat-encode_all take_uint16 big_endian16 (λ n. n < 2 ^ 16) take_uint16-big_endian16

-- `ParseQuery` reads the text up to its terminator.
pub parse_query-cstring : (q rest : Bytes) → LacksNul q → parse_query (cstring q ++ rest) ≡ ok q
unfolding parse_query
parse_query-cstring q rest h = rw (parse_query, cut_cstring q rest h)

-- `ParseParse` reads back the name, the query and the parameter types of a Parse message.
pub parse_parse-parse_layout : (p : Parse) → ParseFits p → parse_parse (parse_layout p) ≡ ok p
unfolding parse_parse parse_parse_body parse_layout
parse_parse-parse_layout p fits = rw (
  parse_parse,
  parse_parse_body,
  parse_layout,
  cut_cstring p.name _ fits.name,
  cut_cstring p.query _ fits.query,
  take_uint16-big_endian16 _ (encode_all big_endian32 p.parameter_oids) fits.count,
  oids,
)
  where
    oids :
        repeat (length p.parameter_oids) take_uint32 (encode_all big_endian32 p.parameter_oids)
        ≡ (ok p.parameter_oids, [])
    oids = rw append-nil at (
        repeat-encode_all take_uint32 big_endian32 (λ n. n < 2 ^ 32) take_uint32-big_endian32
          p.parameter_oids [] fits.oids)

-- `ParseBind` reads back every field of a Bind message, NULL parameters and empty ones included.
pub parse_bind-bind_layout : (b : Bind) → BindFits b → parse_bind (bind_layout b) ≡ ok b
unfolding parse_bind parse_bind_body bind_layout
parse_bind-bind_layout b fits = rw (
  parse_bind,
  parse_bind_body,
  bind_layout,
  cut_cstring b.portal _ fits.portal,
  cut_cstring b.prepared_statement _ fits.statement,
  take_uint16-big_endian16 (length b.parameter_format_codes) _ fits.format_count,
  uint16s b.parameter_format_codes _ fits.formats,
  take_uint16-big_endian16 (length b.parameters) _ fits.param_count,
  repeat-encode_all take_param param_layout ParamFits take_param-param_layout b.parameters _
      fits.params,
  take_uint16-big_endian16 (length b.result_format_codes) _ fits.result_count,
  results,
)
  where
    results :
        repeat
          (length b.result_format_codes)
          take_uint16
          (encode_all big_endian16 b.result_format_codes)
        ≡ (ok b.result_format_codes, [])
    results = rw append-nil at (uint16s b.result_format_codes [] fits.results)

-- `ParseExecute` reads back the portal and the row limit, for a portal without a NUL and a limit of
-- 32 bits.
pub parse_execute-execute_layout :
    (e : Execute)
    → LacksNul e.portal
    → e.max_rows < 2 ^ 32
    → parse_execute (execute_layout e) ≡ ok e
unfolding parse_execute parse_execute_body execute_layout
parse_execute-execute_layout e h k =
    rw (parse_execute, parse_execute_body, execute_layout, cut_cstring e.portal _ h, rows)
  where
    rows : take_uint32 (big_endian32 e.max_rows) ≡ (ok e.max_rows, [])
    rows = rw append-nil at (take_uint32-big_endian32 e.max_rows [] k)

take_name : (c : ℕ) (s : Bytes) → take (length (s ++ 0 ∷ [])) (c ∷ (s ++ 0 ∷ [])) ≡ c ∷ s
take_name c [] = refl
take_name c (d ∷ s) = ap (λ t. c ∷ t) (take_name d s)

-- `ParseDescribe` and `ParseClose` read back the type and the name, with any bytes in the name.
pub parse_target-target_layout : (t : Target) → parse_target (target_layout t) ≡ ok t
unfolding parse_target target_layout cstring
parse_target-target_layout t = go t.name
  where
    go : (n : Bytes) → parse_target (t.kind ∷ cstring n) ≡ ok (record { kind = t.kind; name = n })
    go [] = refl
    go (c ∷ s) = rw (take_name c s)
