-- ===== src/Mfa.antt =====
-- The second factors of a user (internal/access/mfa, crypto/encryption/totp, http/codes).
pub mod Rows
pub mod Numeric
pub mod Digits
pub mod Totp
pub mod Skew
pub mod Factors
pub mod Otp
pub mod Found
pub mod Batch
pub mod Enroll
pub mod Run
pub mod Counting
pub mod Spend
pub mod SpendOtp
pub mod Tests
