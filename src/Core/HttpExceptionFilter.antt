-- ===== src/Core/HttpExceptionFilter.antt =====
-- server/src/core/filters/http-exception.filter.ts: what a request that threw is answered with.
-- `translate key lang args` is `I18nService.t`, `none` where it throws; the time, path and method of
-- the answer and its log line are left out.
use bid_battle.Prelude.{
  ◌||◌, false, get_or, if◌then◌else◌, map, none, same_number, Bool, List, some, Option, String, ℕ,
}
use Prim.Native.String.{◌++◌ as str_append}
use text.Mathlib.Text.{◌==◌ as str_eq}

-- A message, or several, of a validation.
pub data Message : Type 0 where
  one : String → Message
  many : List String → Message

-- The response object of an `HttpException`; a field that is empty counts as none.
pub record ErrorResponse (Args : Type 0) : Type 0 where
  pub message : Option Message
  pub error : Option String
  pub args : Option Args

-- What was thrown: an `HttpException` with its status and a text or an object, an error of a query
-- with the number and the code of its driver, another `Error`, or anything else.
pub data Thrown (Args : Type 0) : Type 0 where
  http_text : ℕ → String → Thrown Args
  http_object : ℕ → ErrorResponse Args → Thrown Args
  query_failed : Option ℕ → Option String → Thrown Args
  generic_error unknown_thrown : Thrown Args

pub record Problem (Args : Type 0) : Type 0 where
  pub status : ℕ
  pub message : Message
  pub error_key : String
  pub args : Option Args

pub record Answer : Type 0 where
  pub status_code : ℕ
  pub error : String
  pub message : Message

abbrev or_text : Option String → String → Message
or_text none d = Message.one d
or_text (some t) d = Message.one t

-- `res.message || res.error || message`
abbrev response_message : Option Message → Option String → Message
response_message none error = or_text error "Internal Server Error"
response_message (some m) error = m

abbrev response_key : Option String → String
response_key none = "error.Internal Server Error"
response_key (some e) = str_append "error." e

abbrev same_code : Option String → String → Bool
same_code none c = false
same_code (some t) c = str_eq t c

-- `code.includes('FK_')`
module _ (includes : String → String → Bool) where
  abbrev is_foreign_key : Option ℕ → Option String → Bool
  is_foreign_key errno code =
      same_number errno (some 1451)
      || (same_number errno (some 1452) || elim code [ none ↦ false | some t ↦ includes t "FK_" ])

module _ {Args : Type 0} (includes : String → String → Bool) where
  abbrev query_problem : Option ℕ → Option String → Problem Args
  query_problem errno code =
      if same_number errno (some 1062) || same_code code "ER_DUP_ENTRY"
      then record {
        status = 409;
        message = Message.one "error.database_unique_constraint";
        error_key = "error.Conflict";
        args = none;
      }
      else if is_foreign_key includes errno code
      then record {
        status = 400;
        message = Message.one "error.database_foreign_key";
        error_key = "error.Bad Request";
        args = none;
      }
      else record {
        status = 500;
        message = Message.one "error.database_query_failed";
        error_key = "error.Internal Server Error";
        args = none;
      }

  unfoldable pub problem_of : Thrown Args → Problem Args
  problem_of (Thrown.http_text status t) = record {
    status = status;
    message = Message.one t;
    error_key = "error.Internal Server Error";
    args = none;
  }
  problem_of (Thrown.http_object status res) = record {
    status = status;
    message = response_message res.message res.error;
    error_key = response_key res.error;
    args = res.args;
  }
  problem_of (Thrown.query_failed errno code) = query_problem errno code
  problem_of Thrown.generic_error = record {
    status = 500;
    message = Message.one "error.Generic Error";
    error_key = "error.Internal Server Error";
    args = none;
  }
  problem_of Thrown.unknown_thrown = record {
    status = 500;
    message = Message.one "Internal Server Error";
    error_key = "error.Internal Server Error";
    args = none;
  }

  module _ (translate : String → Option Args → Option String) where
    -- a key that has no translation stands for itself
    abbrev pub translate_key : String → Option Args → String
    translate_key key args = get_or (translate key args) key

    abbrev pub translate_all : List String → Option Args → List String
    translate_all keys args = map (λ k. translate_key k args) keys

    abbrev pub translate_message : Message → Option Args → Message
    translate_message (Message.one key) args = Message.one (translate_key key args)
    translate_message (Message.many keys) args = Message.many (translate_all keys args)

    unfoldable pub catch_exception : Thrown Args → Answer
    catch_exception thrown =
        let p = problem_of thrown in
        record {
          status_code = p.status;
          error = translate_key p.error_key none;
          message = translate_message p.message p.args;
        }
