-- ===== src/AccessReviews.antt =====
-- Access reviews (backend/app/services/access_reviews.py): campaigns that list assignments at one
-- moment, the decisions on them, and the end of a campaign.
pub mod Scopes
pub mod Campaigns
pub mod Amending
pub mod Deciding
pub mod Outcomes
pub mod Guards
pub mod Recurrence
pub mod Keeping
pub mod Closing
