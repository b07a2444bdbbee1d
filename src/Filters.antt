-- ===== src/Filters.antt =====
-- database-error.filter.ts and http-exception.filter.ts: the status and the message of an answer to an
-- exception. What is only logged is left out.
use a2a_verification_network.Prelude.{
  ℕ, Option, none, some, String, is_empty, str_eq, if◌then◌else◌,
}

-- The classes of TypeORM's errors; a failed query has the code of PostgreSQL, if there is one, and the
-- constraint.
pub data DbError : Type 0 where
  entity_not_found other_typeorm_error : DbError
  query_failed_error : Option String → Option String → DbError

pub record DbAnswer : Type 0 where
  pub status_code : ℕ
  pub message : String
  pub code : Option String
  pub constraint : Option String

abbrev pub pg_error_map : String → Option (ℕ × String)
pg_error_map code =
    if str_eq code "23505"
    then some (409, "Duplicate value violates unique constraint")
    else if str_eq code "23503"
    then some (400, "Foreign key constraint violated")
    else if str_eq code "23502"
    then some (400, "Required field is missing")
    else if str_eq code "23514"
    then some (400, "Check constraint violated")
    else if str_eq code "22P02"
    then some (400, "Invalid input syntax")
    else if str_eq code "40001"
    then some (409, "Serialization failure, please retry")
    else if str_eq code "40P01"
    then some (409, "Deadlock detected, please retry")
    else if str_eq code "57014"
    then some (408, "Query cancelled due to timeout")
    else none

-- `pgErr.code ? PG_ERROR_MAP[pgErr.code] : undefined`
abbrev pub mapped : Option String → Option (ℕ × String)
mapped none = none
mapped (some code) = if is_empty code then none else pg_error_map code

abbrev pub database_error : DbAnswer
database_error = record {
  status_code = 500;
  message = "Database error";
  code = none;
  constraint = none;
}

abbrev pub mapped_answer : Option (ℕ × String) → Option String → Option String → DbAnswer
mapped_answer none code constraint = database_error
mapped_answer (some (status, message)) code constraint = record {
  status_code = status;
  message = message;
  code = code;
  constraint = constraint;
}

unfoldable pub catch_database_error : DbError → DbAnswer
unfolding str_eq
catch_database_error entity_not_found = record {
  status_code = 404;
  message = "Resource not found";
  code = none;
  constraint = none;
}
catch_database_error (query_failed_error code constraint) =
    mapped_answer (mapped code) code constraint
catch_database_error other_typeorm_error = database_error

-- `exception.getResponse()`: an object with a message and an error, which may be missing, or a text.
pub data HttpResponse : Type 0 where
  object : Option String → Option String → HttpResponse
  text : String → HttpResponse

-- What reaches the filter for all exceptions. Both kinds of errors have a name and a message.
pub data Exception : Type 0 where
  http_exception : ℕ → HttpResponse → String → String → Exception
  plain_error : String → String → Exception
  anything : Exception

pub record ErrorBody : Type 0 where
  pub status_code : ℕ
  pub error : String
  pub message : String

-- `value || fallback`
abbrev pub or_else : Option String → String → String
or_else none fallback = fallback
or_else (some value) fallback = if is_empty value then fallback else value

unfoldable pub catch_exception : Exception → ErrorBody
catch_exception (http_exception status (object message title) name detail) = record {
  status_code = status;
  error = or_else title name;
  message = or_else message detail;
}
catch_exception (http_exception status (text message) name detail) = record {
  status_code = status;
  error = "Internal Server Error";
  message = message;
}
catch_exception (plain_error name message) = record {
  status_code = 500;
  error = name;
  message = message;
}
catch_exception anything = record {
  status_code = 500;
  error = "Internal Server Error";
  message = "Internal server error";
}
