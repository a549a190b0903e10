-- ===== src/HttpRule.antt =====
-- internal/httprule: the templates of google.api.http rules.
pub mod Tokenize
pub mod Chars
pub mod Parse
pub mod Trie
