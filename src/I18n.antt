-- ===== src/I18n.antt =====
-- web/lib/i18n/index.tsx: the dictionaries, the choice of a language, the lookup of a phrase, and the
-- provider. The texts of the dictionaries are arguments: `base_dicts` and `extra_dicts`, by language.
-- A dictionary has its own keys alone: what `Object.prototype` answers for a name such as
-- "constructor" is left out.
pub mod Tests
pub mod Dictionary
pub mod Language
pub mod English
pub mod SimplifiedChinese
pub mod TraditionalChinese
pub mod German
pub mod Portuguese
pub mod Translated
pub mod Provider
