-- ===== src/Models/UserWhere.antt =====
-- models/users.go: `UserWhere`, which gives each column the helper of its type.
use users_api.Base.{String, Bool}
use users_api.Go.Null.{Null, Bytes, Time}
use users_api.Models.User.{Column, text, null_text, flag, timestamp, null_time, null_bytes}
use users_api.Models.Where.{Helper}

abbrev pub id : Helper String
id = record { field = Column.id; as_value = text }

abbrev pub email_address : Helper (Null String)
email_address = record { field = Column.email_address; as_value = null_text }

abbrev pub email_confirmed : Helper Bool
email_confirmed = record { field = Column.email_confirmed; as_value = flag }

abbrev pub email_confirmation_sent_at : Helper (Null Time)
email_confirmation_sent_at = record {
  field = Column.email_confirmation_sent_at;
  as_value = null_time;
}

abbrev pub email_confirmation_key : Helper (Null String)
email_confirmation_key = record { field = Column.email_confirmation_key; as_value = null_text }

abbrev pub created_at : Helper Time
created_at = record { field = Column.created_at; as_value = timestamp }

abbrev pub country_code : Helper (Null String)
country_code = record { field = Column.country_code; as_value = null_text }

abbrev pub ethereum_address : Helper (Null Bytes)
ethereum_address = record { field = Column.ethereum_address; as_value = null_bytes }

abbrev pub agreed_tos_at : Helper (Null Time)
agreed_tos_at = record { field = Column.agreed_tos_at; as_value = null_time }

abbrev pub auth_provider_id : Helper String
auth_provider_id = record { field = Column.auth_provider_id; as_value = text }

abbrev pub ethereum_challenge : Helper (Null String)
ethereum_challenge = record { field = Column.ethereum_challenge; as_value = null_text }

abbrev pub ethereum_challenge_sent : Helper (Null Time)
ethereum_challenge_sent = record { field = Column.ethereum_challenge_sent; as_value = null_time }

abbrev pub ethereum_confirmed : Helper Bool
ethereum_confirmed = record { field = Column.ethereum_confirmed; as_value = flag }

abbrev pub in_app_wallet : Helper Bool
in_app_wallet = record { field = Column.in_app_wallet; as_value = flag }

abbrev pub referral_code : Helper (Null String)
referral_code = record { field = Column.referral_code; as_value = null_text }

abbrev pub referred_at : Helper (Null Time)
referred_at = record { field = Column.referred_at; as_value = null_time }

abbrev pub referring_user_id : Helper (Null String)
referring_user_id = record { field = Column.referring_user_id; as_value = null_text }

abbrev pub migrated_at : Helper (Null Time)
migrated_at = record { field = Column.migrated_at; as_value = null_time }
