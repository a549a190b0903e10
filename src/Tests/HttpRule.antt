-- ===== src/Tests/HttpRule.antt =====
-- Runs of the template parser, and the theorems at concrete inputs.
use grpcbridge.Base.{arith, ◌≡◌, refl, [], ◌∷◌, Bytes, codes, bytes_discrete, Lacks}
use grpcbridge.HttpRule.Tokenize.{tokenize, tokens_from, split_any, next_state}
use grpcbridge.HttpRule.Chars.{
  check_ident, check_literal, literal_loop, consume_pchar, is_plain, is_hex,
}
use grpcbridge.HttpRule.Parse.{
  wildcard, multi_wildcard, variable, literal, nil, cons, Template, parsed, unexpected, parse,
  parse_template, parse_segments, parse_segment, parse_variable, field_path, field_path_loop, fits,
  accept, cut_last_colon, with_verb,
}
use grpcbridge.HttpRule.Parse.Grammar.{IsTemplate}
use grpcbridge.HttpRule.Parse.Total.{Explains, parse-Explains, parse_sound}
use grpcbridge.HttpRule.Parse.Nul.{parse_nul}

abbrev verb_template : Bytes
verb_template = codes "/v1/{name=a/*/**}:verb"

abbrev verb_result : Template
verb_result = record {
  tmpl = verb_template;
  segments = cons (literal (codes "v1")) (
      cons
        (variable (codes "name" ∷ [])
          (cons (literal (codes "a")) (cons wildcard (cons multi_wildcard nil))))
        nil);
  verb = codes "verb";
}

parse_verb : parse verb_template ≡ parsed verb_result
unfolding parse tokenize tokens_from split_any next_state parse_template parse_segments
    parse_segment parse_variable field_path field_path_loop fits accept cut_last_colon with_verb
    check_ident check_literal literal_loop consume_pchar is_plain is_hex bytes_discrete
parse_verb = refl

wildcard_verb_is_literal :
    parse (codes "/*:verb")
    ≡ parsed (record {
      tmpl = codes "/*:verb";
      segments = cons (literal (codes "*")) nil;
      verb = codes "verb";
    })
unfolding parse tokenize tokens_from split_any next_state parse_template parse_segments
    parse_segment fits accept cut_last_colon with_verb check_literal literal_loop consume_pchar
    is_plain bytes_discrete
wildcard_verb_is_literal = refl

second_wildcard_after_multi : parse (codes "/**/a") ≡ unexpected (codes "/") (codes "/**")
unfolding parse tokenize tokens_from split_any next_state parse_template parse_segments
    parse_segment fits accept with_verb check_literal literal_loop consume_pchar is_plain
    bytes_discrete
second_wildcard_after_multi = refl

parse-Explains_example : Explains verb_template (parse verb_template)
parse-Explains_example = parse-Explains verb_template

verb_template-Lacks_zero : Lacks 0 verb_template
verb_template-Lacks_zero = ground arith

parse_sound_example :
    (verb_template ≡ verb_template)
    × ((x : Bytes) × (verb_template ≡ b'/' ∷ x)
        × IsTemplate verb_result.segments verb_result.verb x)
parse_sound_example = parse_sound verb_template verb_result verb_template-Lacks_zero parse_verb

parse_nul_example :
    parse (b'/' ∷ 0 ∷ b'/' ∷ codes "v1")
    ≡ parsed (record {
      tmpl = b'/' ∷ 0 ∷ b'/' ∷ codes "v1";
      segments = cons (literal []) nil;
      verb = [];
    })
parse_nul_example = parse_nul (codes "v1")
