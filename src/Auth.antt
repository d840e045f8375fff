-- ===== src/Auth.antt =====
-- src/services/AuthService.cpp: accounts and sessions. The repositories are the statements of
-- Database; the password hasher, the access tokens and the mail transport are parameters.
pub mod Session
pub mod Account
pub mod Families
pub mod Rotation
pub mod Recovery
pub mod Login
use custom_game_launcher_bac.Base.{ℕ, String, Bool, List, Option, Bytes, Result, VoidResult}
use custom_game_launcher_bac.Database.{User, Db}

pub record AuthSettings : Type 0 where
  pub require_verified_email : Bool
  pub refresh_token_ttl : ℕ
  pub email_verification_ttl : ℕ
  pub password_reset_ttl : ℕ
  pub default_role : String
  pub mail_enabled : Bool

pub record ClientContext : Type 0 where
  pub user_agent : Bytes
  pub ip_address : Bytes

-- The message of src/services/MailTemplates.cpp, by what it is composed from.
pub data MailMessage : Type 0 where
  verification_message : Bytes → Bytes → Bytes → MailMessage
  password_reset_message : Bytes → Bytes → Bytes → MailMessage

pub record AccessTokenClaims : Type 0 where
  pub user_id : Bytes
  pub email : Bytes
  pub permissions : List String
  pub password_change_required : Bool

pub record AuthTokens : Type 0 where
  pub access_token : Bytes
  pub refresh_token : Bytes
  pub access_token_expires_in : ℕ
  pub user : User
  pub permissions : List String

pub record RegistrationResult : Type 0 where
  pub user : User
  pub verification_email_sent : Bool

-- IPasswordHasher, ITokenService, IMailSender and sha256Hex, as the service uses them.
pub record AuthEnv : Type 0 where
  pub settings : AuthSettings
  pub sha256_hex : Bytes → Bytes
  pub hash_password : Bytes → Result Bytes
  pub verify_password : Bytes → Bytes → Bool
  pub needs_rehash : Bytes → Bool
  pub issue_access_token : AccessTokenClaims → Bytes
  pub access_token_ttl : ℕ
  pub deliver : MailMessage → VoidResult

-- What is drawn at random in a request: the token of randomUrlSafeToken, the family id of
-- randomUuid, and the id that the database gives a new row.
pub record Draws : Type 0 where
  pub now : ℕ
  pub token : Bytes
  pub family_id : Bytes
  pub row_id : Bytes

-- The database, and the messages handed to the mail transport, newest first.
pub record World : Type 0 where
  pub db : Db
  pub outbox : List MailMessage
